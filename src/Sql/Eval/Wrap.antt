-- ===== src/Sql/Eval/Wrap.antt =====
-- sql/eval.go: sums, differences, products and negations wrap, as if the whole expression were computed exactly.
use db.Prelude.{
  ℕ, zero, suc, ◌≡◌, refl, sym, ap, ◌∙◌, true, Option, none, some, get_elem?, if◌then◌else◌,
  Bool-cases, inl, inr, All, [], ◌∷◌,
}
use db.Prelude.Int.Same.{Same, +ℤ-Same, -ℤ-Same, *ℤ-Same, wrap64-Same, of-Same}
use db.Prelude.Int.{ℤ, pos, ◌+ℤ◌, ◌-ℤ◌, ◌*ℤ◌, IsI64, to_u64, wrap64, of_u64-to_u64}
use db.Table.Cell.{Cell, CellType, unset, type_i64, type_str}
use db.Table.Schema.{Schema, Row, col_index}
use db.Sql.Expr.{
  ExprOp, op_add, op_sub, op_mul, op_neg, Expr, column, constant, bin_op, un_op, tuple,
}
use db.Sql.Eval.{
  Result, ok, ◌>>=◌, eval_expr, eval_bin_op, eval_un_op, short_circuit, or_value, arithmetic,
  column_value, same_type, int_cell,
}

same_type-i64 : (t : CellType) → same_type t type_i64 ≡ true → t ≡ type_i64
same_type-i64 unset h = cc
same_type-i64 type_i64 h = refl
same_type-i64 type_str h = cc

-- A column's type decides whether a cell is an integer.
abbrev int_of : Cell → Option ℤ
int_of c = if same_type c.ty type_i64 then some c.i64 else none

-- The exact value of an expression of columns and constants that are integers, +, -, * and unary
-- minus; none for any other.
abbrev both : (ℤ → ℤ → ℤ) → Option ℤ → Option ℤ → Option ℤ
both f (some x) (some y) = some (f x y)
both f _ _ = none

abbrev combined : ExprOp → Option ℤ → Option ℤ → Option ℤ
combined op_add x y = both (◌+ℤ◌) x y
combined op_sub x y = both (◌-ℤ◌) x y
combined op_mul x y = both (◌*ℤ◌) x y
combined _ x y = none

abbrev negated : ExprOp → Option ℤ → Option ℤ
negated op_neg (some x) = some (pos 0 -ℤ x)
negated _ _ = none

abbrev column_int : Row → Option ℕ → Option ℤ
column_int row none = none
column_int row (some i) = elim (get_elem? row i) [ none ↦ none | some c ↦ int_of c ]

abbrev pub exact : Schema → Row → Expr → Option ℤ
exact schema row (column name) = column_int row (col_index schema name)
exact schema row (constant c) = int_of c
exact schema row (bin_op op l r) = combined op (exact schema row l) (exact schema row r)
exact schema row (un_op op kid) = negated op (exact schema row kid)
exact schema row (tuple kids) = none

-- Every integer constant is an int64, as it is in Go.
abbrev pub ConstantsInRange : Expr → Type 0
ConstantsInRange (column name) = Unit
ConstantsInRange (constant c) = IsI64 c.i64
ConstantsInRange (bin_op op l r) = ConstantsInRange l × ConstantsInRange r
ConstantsInRange (un_op op kid) = ConstantsInRange kid
ConstantsInRange (tuple kids) = Unit

-- A result that is an integer, the exact one wrapped.
abbrev pub Wrapped : Result Cell → ℤ → Type 0
Wrapped r x = (c : Cell) × (r ≡ ok c) × (c.ty ≡ type_i64) × (c.i64 ≡ wrap64 x)

cell-Wrapped : (c : Cell) (x : ℤ) → IsI64 c.i64 → int_of c ≡ some x → Wrapped (ok c) x
unfolding wrap64
cell-Wrapped c x h e = elim (Bool-cases (same_type c.ty type_i64)) [
  | inl t ↦
      let known : some c.i64 ≡ some x = rw t at e in
      let same : c.i64 ≡ x = cc in
      (c, refl, same_type-i64 c.ty t, sym (of_u64-to_u64 c.i64 h) ∙ ap wrap64 same)
  | inr t ↦ let wrong : none ≡ some x = rw t at e in cc
]

both-some :
    (f : ℤ → ℤ → ℤ) (p q : Option ℤ) (z : ℤ)
    → both f p q ≡ some z
    → (x : ℤ) × (y : ℤ) × (p ≡ some x) × (q ≡ some y) × (f x y ≡ z)
both-some f none q z h = cc
both-some f (some x) none z h = cc
both-some f (some x) (some y) z h = (x, y, refl, refl, cc)

arithmetic-Wrapped :
    (f : ℤ → ℤ → ℤ) (x y z : ℤ) (left right : Cell)
    → ((a a' b b' : ℤ) → Same a a' → Same b b' → Same (f a b) (f a' b'))
    → left.ty ≡ type_i64
    → right.ty ≡ type_i64
    → left.i64 ≡ wrap64 x
    → right.i64 ≡ wrap64 y
    → f x y ≡ z
    → Wrapped (arithmetic f left right) z
unfolding arithmetic
arithmetic-Wrapped f x y z left right keeps t u e g h = (
  int_cell (wrap64 (f left.i64 right.i64)),
  rw (t, u) refl,
  refl,
  of-Same (f left.i64 right.i64) (f x y)
        (keeps left.i64 x right.i64 y (ap to_u64 e ∙ wrap64-Same x) (ap to_u64 g ∙ wrap64-Same y))
      ∙ ap wrap64 h,
)

eval_bin_op-Wrapped :
    (op : ExprOp) (p q : Option ℤ) (z : ℤ) (l r : Result Cell)
    → combined op p q ≡ some z
    → ((x : ℤ) → p ≡ some x → Wrapped l x)
    → ((y : ℤ) → q ≡ some y → Wrapped r y)
    → Wrapped
        (l >>= λ left. or_value (short_circuit op left) (r >>= λ right. eval_bin_op op left right))
        z
unfolding short_circuit eval_bin_op
eval_bin_op-Wrapped op_add p q z l r e hl hr =
    let (x, y, ex, ey, s) = both-some (◌+ℤ◌) p q z e in
    let (c, lc, t, v) = hl x ex in
    let (d, rd, u, w) = hr y ey in
    rw (lc, rd) (arithmetic-Wrapped (◌+ℤ◌) x y z c d +ℤ-Same t u v w s)
eval_bin_op-Wrapped op_sub p q z l r e hl hr =
    let (x, y, ex, ey, s) = both-some (◌-ℤ◌) p q z e in
    let (c, lc, t, v) = hl x ex in
    let (d, rd, u, w) = hr y ey in
    rw (lc, rd) (arithmetic-Wrapped (◌-ℤ◌) x y z c d -ℤ-Same t u v w s)
eval_bin_op-Wrapped op_mul p q z l r e hl hr =
    let (x, y, ex, ey, s) = both-some (◌*ℤ◌) p q z e in
    let (c, lc, t, v) = hl x ex in
    let (d, rd, u, w) = hr y ey in
    rw (lc, rd) (arithmetic-Wrapped (◌*ℤ◌) x y z c d *ℤ-Same t u v w s)
eval_bin_op-Wrapped _ p q z l r e hl hr = cc

negated-some :
    (op : ExprOp) (p : Option ℤ) (z : ℤ)
    → negated op p ≡ some z
    → (x : ℤ) × (op ≡ op_neg) × (p ≡ some x) × (pos 0 -ℤ x ≡ z)
negated-some op_neg none z h = cc
negated-some op_neg (some x) z h = (x, refl, refl, cc)
negated-some _ p z h = cc

eval_un_op-Wrapped :
    (op : ExprOp) (p : Option ℤ) (z : ℤ) (r : Result Cell)
    → negated op p ≡ some z
    → ((x : ℤ) → p ≡ some x → Wrapped r x)
    → Wrapped (r >>= λ c. eval_un_op op c) z
unfolding eval_un_op
eval_un_op-Wrapped op p z r e h =
    let (x, o, ex, s) = negated-some op p z e in
    let (c, rc, t, v) = h x ex in
    rw (rc, o, t)
      (
        int_cell (wrap64 (pos 0 -ℤ c.i64)),
        refl,
        refl,
        of-Same (pos 0 -ℤ c.i64) (pos 0 -ℤ x)
              (-ℤ-Same (pos 0) (pos 0) c.i64 x refl (ap to_u64 v ∙ wrap64-Same x))
            ∙ ap wrap64 s,
      )

column-Wrapped :
    (row : Row) (o : Option ℕ) (x : ℤ)
    → All (λ (c : Cell). IsI64 c.i64) row
    → column_int row o ≡ some x
    → Wrapped (column_value row o) x
column-Wrapped row none x h e = cc
column-Wrapped [] (some i) x h e = cc
column-Wrapped (c ∷ row) (some zero) x (p, h) e = cell-Wrapped c x p e
column-Wrapped (c ∷ row) (some (suc i)) x (p, h) e = column-Wrapped row (some i) x h e

-- On a row whose cells hold int64 integers, an expression of columns of the integer type, int64 constants,
-- +, -, * and unary minus evaluates without an error to an integer: the exact value of the whole
-- expression, wrapped once to 64 bits, whatever overflows on the way.
pub eval_expr-Wrapped :
    (schema : Schema) (row : Row) (e : Expr) (x : ℤ)
    → All (λ (c : Cell). IsI64 c.i64) row
    → ConstantsInRange e
    → exact schema row e ≡ some x
    → Wrapped (eval_expr schema row e) x
unfolding eval_expr
eval_expr-Wrapped schema row (column name) x h k e =
    column-Wrapped row (col_index schema name) x h e
eval_expr-Wrapped schema row (constant c) x h k e = cell-Wrapped c x k e
eval_expr-Wrapped schema row (bin_op op l r) x h (kl, kr) e =
    eval_bin_op-Wrapped op (exact schema row l) (exact schema row r) x (eval_expr schema row l)
      (eval_expr schema row r) e (λ y. eval_expr-Wrapped schema row l y h kl)
      (λ y. eval_expr-Wrapped schema row r y h kr)
eval_expr-Wrapped schema row (un_op op kid) x h k e =
    eval_un_op-Wrapped op (exact schema row kid) x (eval_expr schema row kid) e
      (λ y. eval_expr-Wrapped schema row kid y h k)
eval_expr-Wrapped schema row (tuple kids) x h k e = cc
