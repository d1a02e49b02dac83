-- ===== src/Sql/Planner.antt =====
-- sql/match.go and sql/planner.go: the access path for a WHERE expression. Pattern
-- matches on the tree succeed with a result, fail, or panic on a column index out of range.
pub mod Bounds
pub mod TwoSided
use db.Prelude.{
  ℕ, suc, Bool, true, false, ◌||◌, Option, none, some, List, [], ◌∷◌, ◌++◌, map, Bytes, length,
  get_elem?, ltb, ◌==◌, if◌then◌else◌,
}
use db.Bytes.Order.{cmp, is_eq}
use db.Table.Cell.{Cell}
use db.Table.Schema.{Schema, Column, with_type}
use db.Sql.Expr.{
  ExprOp, op_and, op_eq, op_le, op_ge, op_lt, op_gt, Expr, Exprs, no_more, one_more, column,
  constant, bin_op, tuple,
}

-- How a match ends: with a result, without one, or in a panic.
pub data Match (A : Type 0) : Type 0 where
  matched : A → Match A
  unmatched panic : Match A

infixl 5 ◌>>=◌
abbrev pub ◌>>=◌ : {A B : Type 0} → Match A → (A → Match B) → Match B
matched a >>= f = f a
unmatched >>= f = unmatched
panic >>= f = panic

pub record NamedCell : Type 0 where
  pub name : Bytes
  pub value : Cell

-- matchAllEq
abbrev pub eq_pair : Expr → Expr → List NamedCell → Match (List NamedCell)
eq_pair (column col) (constant val) out = matched (out ++ record { name = col; value = val } ∷ [])
eq_pair _ _ out = unmatched

unfoldable pub match_all_eq : Expr → List NamedCell → Match (List NamedCell)
match_all_eq (bin_op op_and l r) out = match_all_eq l out >>= λ out. match_all_eq r out
match_all_eq (bin_op op_eq l r) out = eq_pair l r out
match_all_eq _ out = unmatched

-- RangeReq
pub record RangeReq : Type 0 where
  pub start_cmp : ExprOp
  pub stop_cmp : ExprOp
  pub start : List Cell
  pub stop : List Cell

unfoldable pub is_descending : ExprOp → Bool
is_descending op_le = true
is_descending op_lt = true
is_descending _ = false

unfoldable pub suffix_positive : ExprOp → Bool
suffix_positive op_gt = true
suffix_positive op_le = true
suffix_positive _ = false

-- schema.Cols[pk]
abbrev pub pkey_column : Schema → ℕ → Match Column
pkey_column schema pk = elim (get_elem? schema.cols pk) [ none ↦ panic | some col ↦ matched col ]

-- isPKeyPrefix: the loop, and the whole.
unfoldable pub names_match : Schema → List ℕ → List Bytes → Match Bool
names_match schema pkey [] = matched true
names_match schema [] (name ∷ names) = matched false
names_match schema (pk ∷ pkey) (name ∷ names) =
    let later = names_match schema pkey names in
    pkey_column schema pk >>= λ col. if is_eq (cmp col.name name) then later else matched false

unfoldable pub is_pkey_prefix : Schema → List Bytes → Match Bool
is_pkey_prefix schema cols =
    if (length cols == 0) || ltb (length schema.pkey) (length cols)
    then matched false
    else names_match schema schema.pkey cols

-- destructureCmp: the column names and the constants of the two sides.
unfoldable pub destructure_tuples : Exprs → Exprs → Match (List Bytes × List Cell)
destructure_tuples no_more no_more = matched ([], [])
destructure_tuples (one_more (column name) ls) (one_more (constant val) rs) =
    destructure_tuples ls rs >>= λ p. matched (name ∷ p.0, val ∷ p.1)
destructure_tuples _ _ = unmatched

unfoldable pub destructure_cmp : Expr → Expr → Match (List Bytes × List Cell)
destructure_cmp (column name) (constant val) = matched (name ∷ [], val ∷ [])
destructure_cmp (tuple ls) (tuple rs) = destructure_tuples ls rs
destructure_cmp _ _ = unmatched

-- typedPrefix
unfoldable pub typed_prefix : Schema → List ℕ → List Cell → Match (List Cell)
typed_prefix schema pkey [] = matched []
typed_prefix schema [] (val ∷ vals) = panic
typed_prefix schema (pk ∷ pkey) (val ∷ vals) = pkey_column schema pk >>= λ col.
    typed_prefix schema pkey vals >>= λ out. matched (with_type val col.ty ∷ out)

abbrev pub is_comparison : ExprOp → Bool
is_comparison op_gt = true
is_comparison op_ge = true
is_comparison op_lt = true
is_comparison op_le = true
is_comparison _ = false

abbrev pub is_start : ExprOp → Bool
is_start op_gt = true
is_start op_ge = true
is_start _ = false

-- cmpToBound
pub record Bound : Type 0 where
  pub op : ExprOp
  pub cells : List Cell
  pub start : Bool

unfoldable pub cmp_to_bound : Schema → Expr → Match Bound
cmp_to_bound schema (bin_op op l r) =
    if is_comparison op
    then (destructure_cmp l r >>= λ p. is_pkey_prefix schema (p.0) >>= λ ok.
        if ok
        then (typed_prefix schema schema.pkey (p.1) >>= λ cells.
            matched (record { op = op; cells = cells; start = is_start op }))
        else unmatched)
    else unmatched
cmp_to_bound schema _ = unmatched

-- extractPKey: the first pair of that name, retyped.
unfoldable pub lookup_name : Bytes → List NamedCell → Match Cell
lookup_name name [] = unmatched
lookup_name name (nc ∷ keys) =
    let later = lookup_name name keys in
    if is_eq (cmp nc.name name) then matched nc.value else later

unfoldable pub extract_cells : Schema → List ℕ → List NamedCell → Match (List Cell)
extract_cells schema [] keys = matched []
extract_cells schema (pk ∷ pkey) keys = pkey_column schema pk >>= λ col.
    lookup_name col.name keys >>= λ val.
    extract_cells schema pkey keys >>= λ out. matched (with_type val col.ty ∷ out)

unfoldable pub extract_pkey : Schema → List NamedCell → Match (List Cell)
extract_pkey schema keys =
    if length keys == length schema.pkey then extract_cells schema schema.pkey keys else unmatched

-- matchRange: the two closures over the request, and the whole.
abbrev pub full_scan : RangeReq
full_scan = record { start_cmp = op_ge; stop_cmp = op_le; start = []; stop = [] }

unfoldable pub apply_bound : Bound → RangeReq → RangeReq
apply_bound b req =
    if b.start
    then record { start_cmp = b.op; stop_cmp = req.stop_cmp; start = b.cells; stop = req.stop }
    else record { start_cmp = req.start_cmp; stop_cmp = b.op; start = req.start; stop = b.cells }

unfoldable pub match_range : Schema → Expr → Match RangeReq
match_range schema (bin_op op_and l r) = cmp_to_bound schema l >>= λ b.
    cmp_to_bound schema r >>= λ c. matched (apply_bound c (apply_bound b full_scan))
match_range schema (bin_op op l r) =
    cmp_to_bound schema (bin_op op l r) >>= λ b. matched (apply_bound b full_scan)
match_range schema _ = unmatched

-- The alternative that is tried when a match fails.
abbrev or_else : {A : Type 0} → Match A → Match A → Match A
or_else (matched a) later = matched a
or_else unmatched later = later
or_else panic later = panic

-- makeRange; unmatched is the error "unimplemented WHERE", and a missing condition is none.
unfoldable pub point : Schema → Expr → Match RangeReq
point schema cond = match_all_eq cond [] >>= λ keys. extract_pkey schema keys >>= λ pkey.
    matched (record { start_cmp = op_ge; stop_cmp = op_le; start = pkey; stop = pkey })

unfoldable pub make_range : Schema → Option Expr → Match RangeReq
make_range schema none = matched full_scan
make_range schema (some cond) = or_else (point schema cond) (match_range schema cond)
