-- ===== src/Sql/Engine/Update.antt =====
-- sql/engine.go (execUpdate): what SET does to a row.
use db.Prelude.{
  ℕ, ◌<◌, ◌≡◌, refl, sym, ap, ◌∙◌, subst, true, false, List, [], ◌∷◌, ◌++◌, Option, none, some,
  ◌>>=◌, Bytes, arith, length, get_elem?, get_elem?-set_ne, get_elem?-set_self, set, ◌==◌, inl, inr,
  Bool-cases, All,
}
use db.Table.Cell.{Cell}
use db.Table.Schema.Member.{col_index-name, member-cons, encode_pkey-frame}
use db.Table.Schema.{Column, Schema, Row, is_member, is_pkey, col_index, encode_key}
use db.Sql.Stmt.{ExprAssign}
use db.Sql.Eval.{EvalError, eval_expr, same_type}
use db.Sql.Eval
use db.Sql.Engine.{
  ExecError, Result, ok, error, panic, stuck, bind, of_option, of_eval, pkey_assigned,
  no_such_column, type_mismatch,
}
use db.Sql.Engine.Exec.{targets, assigned_type, new_vals, assign}

module _ {ℓ κ} {A : Type ℓ} {B : Type κ} where
  bind-eq-ok :
      (r : Result A) (f : A → Result B) {b : B}
      → bind r f ≡ ok b
      → (a : A) × (r ≡ ok a) × (f a ≡ ok b)
  bind-eq-ok (ok a) f h = (a, refl, h)
  bind-eq-ok (error e) f h = cc
  bind-eq-ok panic f h = cc
  bind-eq-ok stuck f h = cc

of_option-ok :
    {A : Type 0} (x : ExecError) (o : Option A) (a : A) → of_option x o ≡ ok a → o ≡ some a
of_option-ok x none a h = cc
of_option-ok x (some b) a h = cc

-- The columns that are not assigned keep their cells.
assign_frame :
    (idxs : List ℕ) (vals row row' : List Cell) (i : ℕ)
    → assign row idxs vals ≡ ok row'
    → is_member i idxs ≡ false
    → get_elem? row' i ≡ get_elem? row i
unfolding assign
assign_frame [] vals row row' i e h =
    let same : row ≡ row' = cc in ap (λ r. get_elem? r i) (sym same)
assign_frame (idx ∷ idxs) [] row row' i e h =
    let same : row ≡ row' = cc in ap (λ r. get_elem? r i) (sym same)
assign_frame (idx ∷ idxs) (v ∷ vals) row row' i e h =
    let m = member-cons i idx idxs in
    let other : (idx == i) ≡ false = ground arith in
    let later : is_member i idxs ≡ false = ground arith in
    let rest : assign (set row idx v) idxs vals ≡ ok row' = ground arith in
    assign_frame idxs vals (set row idx v) row' i rest later ∙ get_elem?-set_ne row idx i v other

abbrev NoKeys : Schema → Result (List ℕ) → Type 0
NoKeys schema (ok idxs) = All (λ i. is_pkey schema i ≡ false) idxs
NoKeys schema _ = Unit

assign-cons :
    (row : Row) (idx : ℕ) (idxs : List ℕ) (v : Cell) (vals : List Cell) (row' : Row)
    → assign row (idx ∷ idxs) (v ∷ vals) ≡ ok row'
    → (idx < length row) × (assign (set row idx v) idxs vals ≡ ok row')
unfolding assign
assign-cons row idx idxs v vals row' h = ground arith

targets-All :
    (schema : Schema) (asns : List ExprAssign) (idxs : List ℕ)
    → targets schema asns ≡ ok idxs
    → All (λ i. is_pkey schema i ≡ false) idxs
unfolding targets
targets-All schema [] idxs e = subst (λ r. NoKeys schema r) e tt
targets-All schema (asn ∷ asns) idxs e =
    let (idx, _, e') = bind-eq-ok (of_option no_such_column (col_index schema asn.column)) _ e in
    elim (Bool-cases (is_pkey schema idx)) [
      | inl k ↦ let wrong : Result.error pkey_assigned ≡ ok idxs = rw k at e' in cc
      | inr k ↦
          let right : bind (targets schema asns) (λ rest. ok (idx ∷ rest)) ≡ ok idxs = rw k at e' in
          let (rest, t, e'') = bind-eq-ok (targets schema asns) _ right in
          subst (λ r. NoKeys schema r) e'' (k, targets-All schema asns rest t)
    ]

apart :
    (schema : Schema) (idxs : List ℕ) (i : ℕ)
    → All (λ j. is_pkey schema j ≡ false) idxs
    → is_pkey schema i ≡ true
    → is_member i idxs ≡ false
apart schema [] i h k = unfold is_member in refl
apart schema (idx ∷ idxs) i (h, hs) k =
    let m = member-cons i idx idxs in
    let later = apart schema idxs i hs k in
    elim (Bool-cases (idx == i)) [
      | inl same ↦ let equal : idx ≡ i = ground arith in cc
      | inr other ↦ m ∙ (rw (other, later) refl)
    ]

-- UPDATE does not move a row: where SET's targets pass the check, the row that is written has the key of the row that was read.
pub encode_key-assign :
    (schema : Schema) (asns : List ExprAssign) (idxs : List ℕ) (vals row row' : List Cell)
    → targets schema asns ≡ ok idxs
    → assign row idxs vals ≡ ok row'
    → encode_key schema row' ≡ encode_key schema row
unfolding encode_key is_pkey
encode_key-assign schema asns idxs vals row row' t e =
    ap (λ (o : Option Bytes). o >>= λ key. some (key ++ 0 ∷ []))
      (encode_pkey-frame row row' schema.pkey (schema.table ++ 0 ∷ []) (λ i k.
        assign_frame idxs vals row row' i e
          (apart schema idxs i (targets-All schema asns idxs t) k)))

-- Each index is that of a column with the assignment's name, outside the primary key.
abbrev Targeted : Schema → List ExprAssign → List ℕ → Type 0
Targeted schema [] [] = Unit
Targeted schema (asn ∷ asns) (idx ∷ idxs) =
    ((col : Column) × (get_elem? schema.cols idx ≡ some col)
      × (col.name ≡ asn.column)
      × (is_pkey schema idx ≡ false))
    × Targeted schema asns idxs
Targeted schema _ _ = ⊥

abbrev AllTargeted : Schema → List ExprAssign → Result (List ℕ) → Type 0
AllTargeted schema asns (ok idxs) = Targeted schema asns idxs
AllTargeted schema asns _ = Unit

targets-Targeted :
    (schema : Schema) (asns : List ExprAssign) (idxs : List ℕ)
    → targets schema asns ≡ ok idxs
    → Targeted schema asns idxs
unfolding targets
targets-Targeted schema [] idxs e = subst (AllTargeted schema []) e tt
targets-Targeted schema (asn ∷ asns) idxs e =
    let (idx, at, e') = bind-eq-ok (of_option no_such_column (col_index schema asn.column)) _ e in
    elim (Bool-cases (is_pkey schema idx)) [
      | inl k ↦ let wrong : Result.error pkey_assigned ≡ ok idxs = rw k at e' in cc
      | inr k ↦
          let right : bind (targets schema asns) (λ rest. ok (idx ∷ rest)) ≡ ok idxs = rw k at e' in
          let (rest, t, e'') = bind-eq-ok (targets schema asns) _ right in
          let (col, g, name) =
            col_index-name schema asn.column idx
              (of_option-ok no_such_column (col_index schema asn.column) idx at) in
          subst (AllTargeted schema (asn ∷ asns)) e''
            ((col, g, name, k), targets-Targeted schema asns rest t)
    ]

-- An assignment's target is a column of its name, outside the primary key. Where no later assignment has
-- the target, it holds the expression's value on the row before, of the column's type.
abbrev pub Assigned : Schema → Row → Row → List ExprAssign → List ℕ → Type 0
Assigned schema row row' [] [] = Unit
Assigned schema row row' (asn ∷ asns) (idx ∷ idxs) =
    ((col : Column) × (get_elem? schema.cols idx ≡ some col)
      × (col.name ≡ asn.column)
      × (is_pkey schema idx ≡ false)
      × (is_member idx idxs ≡ false
          → (c : Cell) × (eval_expr schema row asn.expr ≡ Eval.ok c)
            × (get_elem? row' idx ≡ some c)
            × (same_type c.ty col.ty ≡ true)))
    × Assigned schema row row' asns idxs
Assigned schema row row' _ _ = ⊥

of_eval-ok : (r : Eval.Result Cell) (c : Cell) → of_eval r ≡ ok c → r ≡ Eval.ok c
of_eval-ok (Eval.ok a) c h = cc
of_eval-ok (Eval.error EvalError.panic) c h = cc
of_eval-ok (Eval.error _) c h = cc

-- One value of newVals.
abbrev NewVal : Schema → Row → ExprAssign → List ExprAssign → ℕ → List ℕ → List Cell → Type 0
NewVal schema row asn asns idx idxs vals =
    (c : Cell) × (col : Column) × (rest : List Cell) × (eval_expr schema row asn.expr ≡ Eval.ok c)
    × (get_elem? schema.cols idx ≡ some col)
    × (same_type c.ty col.ty ≡ true)
    × (new_vals schema row asns idxs ≡ ok rest)
    × (vals ≡ c ∷ rest)

assigned_type-ok :
    (col : Column) (c v : Cell)
    → assigned_type col c ≡ ok v
    → (same_type c.ty col.ty ≡ true) × (v ≡ c)
assigned_type-ok col c v h = elim (Bool-cases (same_type c.ty col.ty)) [
  | inl t ↦ let same : Result.ok c ≡ ok v = rw t at h in (t, cc)
  | inr t ↦ let wrong : Result.error type_mismatch ≡ ok v = rw t at h in cc
]

new_vals-cons :
    (schema : Schema) (row : Row) (asn : ExprAssign) (asns : List ExprAssign) (idx : ℕ)
    (idxs : List ℕ) (vals : List Cell)
    → new_vals schema row (asn ∷ asns) (idx ∷ idxs) ≡ ok vals
    → NewVal schema row asn asns idx idxs vals
unfolding new_vals
new_vals-cons schema row asn asns idx idxs vals h =
    let (c, ev, h') = bind-eq-ok (of_eval (eval_expr schema row asn.expr)) _ h in
    column c (of_eval-ok (eval_expr schema row asn.expr) c ev) (get_elem? schema.cols idx) refl h'
  where
    column :
        (c : Cell)
        → eval_expr schema row asn.expr ≡ Eval.ok c
        → (o : Option Column) → get_elem? schema.cols idx ≡ o
        → (elim o [
          | none ↦ panic
          | some col ↦
              bind
                (assigned_type col c)
                (λ v. bind (new_vals schema row asns idxs) (λ vals. ok (v ∷ vals)))
        ])
          ≡ ok vals
        → NewVal schema row asn asns idx idxs vals
    column c ev none g k = cc
    column c ev (some col) g k =
        let (v, t, k') = bind-eq-ok (assigned_type col c) _ k in
        let (rest, w, k'') = bind-eq-ok (new_vals schema row asns idxs) _ k' in
        let (ty, same) = assigned_type-ok col c v t in
        (
          c,
          col,
          rest,
          ev,
          g,
          ty,
          w,
          (let split : v ∷ rest ≡ vals = cc in sym split ∙ ap (λ (x : Cell). x ∷ rest) same),
        )

assign_loop-Assigned :
    (schema : Schema) (row row' : Row) (asns : List ExprAssign) (idxs : List ℕ)
    (vals current : List Cell)
    → Targeted schema asns idxs
    → new_vals schema row asns idxs ≡ ok vals
    → assign current idxs vals ≡ ok row'
    → Assigned schema row row' asns idxs
assign_loop-Assigned schema row row' [] [] vals current n w a = tt
assign_loop-Assigned schema row row' [] (idx ∷ idxs) vals current n w a = absurd n
assign_loop-Assigned schema row row' (asn ∷ asns) [] vals current n w a = absurd n
assign_loop-Assigned schema row row' (asn ∷ asns) (idx ∷ idxs) vals current ((col', g', name, k), n)
      w a =
    let (c, col, rest, ev, g, ty, w', e) = new_vals-cons schema row asn asns idx idxs vals w in
    let (inside, a') =
      assign-cons current idx idxs c rest row'
        (subst (λ vs. assign current (idx ∷ idxs) vs ≡ ok row') e a) in
    let same : col ≡ col' = cc in
    (
      (
        col',
        g',
        name,
        k,
        λ last. (
          c,
          ev,
          assign_frame idxs rest (set current idx c) row' idx a' last
              ∙ get_elem?-set_self current idx c inside,
          subst (λ (x : Column). same_type c.ty x.ty ≡ true) same ty,
        ),
      ),
      assign_loop-Assigned schema row row' asns idxs rest (set current idx c) n w' a',
    )

-- SET assigns at once. Where SET's targets pass the check, its values are computed on the row before the
-- update, and the row is assigned: each target is a column of the name that SET gives, outside the primary
-- key, and holds in the new row the value that its expression has on the row before, of the column's
-- type; where SET names a column twice, that is said of the last time. Every other column keeps its cell.
pub assign-Assigned :
    (schema : Schema) (asns : List ExprAssign) (idxs : List ℕ) (vals row row' : List Cell)
    → targets schema asns ≡ ok idxs
    → new_vals schema row asns idxs ≡ ok vals
    → assign row idxs vals ≡ ok row'
    → Assigned schema row row' asns idxs
      × ((i : ℕ) → is_member i idxs ≡ false → get_elem? row' i ≡ get_elem? row i)
assign-Assigned schema asns idxs vals row row' t w a = (
  assign_loop-Assigned schema row row' asns idxs vals row (targets-Targeted schema asns idxs t) w a,
  λ i h. assign_frame idxs vals row row' i a h,
)
