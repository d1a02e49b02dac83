-- ===== src/Sql/Planner/Bounds.antt =====
-- sql/planner.go: a comparison of the first key column with a constant, as a bound on keys and as the
-- expression that sql/eval.go evaluates.
use db.Prelude.{
  ℕ, ◌≡◌, refl, sym, ap, subst, ◌∙◌, Bool, true, false, not, ◌&&◌, List, [], ◌∷◌, none, some, ◌==◌,
  ◌||◌, arith, Bytes, All, length, get_elem?, ltb, if◌then◌else◌, Ordering, lt, eq, gt,
}
use db.Bytes.Order
use db.Bytes.Order.{is_lt, is_eq, cmp_refl}
use db.Table.Cell.{Cell}
use db.Table.Cell.Escape.{then_by}
use db.Table.Cell.Order.{IsCell, cell_order}
use db.Table.Schema.{Column, Schema, Row, col_index, with_type, encode_key, encode_key_prefix}
use db.Table.Schema.Member.{col_index-name}
use db.Table.Schema.Order.{Encodes}
use db.Table.Schema.Prefix.{AgreePrefix, beyond, prefix_order, cmp-encode_key_prefix}
use db.Sql.Expr.{ExprOp, op_and, op_lt, op_le, op_gt, op_ge, Expr, column, constant, bin_op}
use db.Sql.Eval.{
  ok, bool_cell, column_value, eval_expr, is_gt, truthy, short_circuit, or_value, eval_bin_op,
  compared,
}
use db.Sql.Eval.Compare.{cmp_lem}
use db.Sql.Planner.{
  matched, Bound, is_comparison, is_start, is_descending, suffix_positive, full_scan, apply_bound,
  pkey_column, cmp_to_bound, destructure_cmp, is_pkey_prefix, names_match, typed_prefix,
  match_range, match_all_eq, point, make_range,
}

-- > and >=, < and <=.
abbrev pub lower : Bool → ExprOp
lower strict = if strict then op_gt else op_ge

abbrev pub upper : Bool → ExprOp
upper strict = if strict then op_lt else op_le

abbrev pub compare_to : Bytes → ExprOp → Cell → Expr
compare_to name op v = bin_op op (column name) (constant v)

-- What the four operators ask of the order of the operands.
abbrev pub above : Bool → Ordering → Bool
above strict o = if strict then is_gt o else not (is_lt o)

abbrev pub below : Bool → Ordering → Bool
below strict o = if strict then is_lt o else not (is_gt o)

-- A key in a closed interval.
abbrev pub in_range : Bytes → Bytes → Bytes → Bool
in_range key start stop = not (is_lt (Order.cmp key start)) && not (is_gt (Order.cmp key stop))

above_start :
    (strict : Bool) (o : Ordering)
    → not (is_lt (then_by (then_by o eq) (beyond (suffix_positive (lower strict)))))
      ≡ above strict o
unfolding suffix_positive
above_start true lt = refl
above_start true eq = refl
above_start true gt = refl
above_start false lt = refl
above_start false eq = refl
above_start false gt = refl

below_stop :
    (strict : Bool) (o : Ordering)
    → not (is_gt (then_by (then_by o eq) (beyond (suffix_positive (upper strict)))))
      ≡ below strict o
unfolding suffix_positive
below_stop true lt = refl
below_stop true eq = refl
below_stop true gt = refl
below_stop false lt = refl
below_stop false eq = refl
below_stop false gt = refl

and_values :
    (x y : Bool)
    → or_value (short_circuit op_and (bool_cell x)) (eval_bin_op op_and (bool_cell x) (bool_cell y))
      ≡ ok (bool_cell (x && y))
unfolding short_circuit eval_bin_op truthy
and_values true true = refl
and_values true false = refl
and_values false true = refl
and_values false false = refl

pub lower-ascending : (strict : Bool) → is_descending (lower strict) ≡ false
unfolding is_descending
lower-ascending true = refl
lower-ascending false = refl

pub bool_cell_inj : (x y : Bool) → ok (bool_cell x) ≡ ok (bool_cell y) → x ≡ y
bool_cell_inj true true h = refl
bool_cell_inj false false h = refl
bool_cell_inj true false h = cc
bool_cell_inj false true h = cc

-- The row has a valid cell in the first key column, which has this name, and a key.
pub record Keyed (schema : Schema) (row : Row) (name : Bytes) (c : Cell) (key : Bytes)
    : Type 0 where
  pub first : ℕ
  pub others : List ℕ
  pub pkey_eq : schema.pkey ≡ first ∷ others
  pub found : col_index schema name ≡ some first
  pub cell : get_elem? row first ≡ some c
  pub valid : IsCell c
  pub rest : All (Encodes row) others
  pub typed : (col : Column) → get_elem? schema.cols first ≡ some col → c.ty ≡ col.ty
  pub encoded : encode_key schema row ≡ some key

module _ (schema : Schema) (row : Row) (name : Bytes) (c : Cell) (key : Bytes)
    (k : Keyed schema row name c key) where
  pub agree : (v : Cell) → IsCell v → c.ty ≡ v.ty → AgreePrefix row schema.pkey (v ∷ [])
  agree v h t =
      subst (λ (ps : List ℕ). AgreePrefix row ps (v ∷ [])) (sym k.pkey_eq)
        ((c, k.cell, k.valid, h, t), k.rest)

  names_lem :
      (col : Column)
      → get_elem? schema.cols k.first ≡ some col
      → col.name ≡ name
      → names_match schema (k.first ∷ k.others) (name ∷ []) ≡ matched true
  unfolding names_match
  names_lem col at named = rw (names_match, pkey_column, at, named, cmp_refl name) refl

  prefix_lem :
      (col : Column)
      → get_elem? schema.cols k.first ≡ some col
      → col.name ≡ name
      → is_pkey_prefix schema (name ∷ []) ≡ matched true
  unfolding is_pkey_prefix
  prefix_lem col at named =
      subst
        (λ (ps : List ℕ).
          (if (length (name ∷ []) == 0) || ltb (length ps) (length (name ∷ []))
            then matched false
            else names_match schema ps (name ∷ []))
          ≡ matched true)
        (sym k.pkey_eq) (ground (arith, names_lem col at named))

  typed_lem :
      (v : Cell) (col : Column)
      → get_elem? schema.cols k.first ≡ some col
      → c.ty ≡ v.ty
      → typed_prefix schema schema.pkey (v ∷ []) ≡ matched (v ∷ [])
  unfolding typed_prefix
  typed_lem v col at t =
      let same : with_type v col.ty ≡ v = ap (with_type v) (sym (sym t ∙ k.typed col at)) in
      subst (λ (ps : List ℕ). typed_prefix schema ps (v ∷ []) ≡ matched (v ∷ [])) (sym k.pkey_eq)
        (rw (typed_prefix, pkey_column, at, same) refl)

  bound_lem :
      (op : ExprOp) (v : Cell)
      → is_comparison op ≡ true
      → c.ty ≡ v.ty
      → cmp_to_bound schema (compare_to name op v)
        ≡ matched (record { op = op; cells = v ∷ []; start = is_start op })
  unfolding cmp_to_bound destructure_cmp
  bound_lem op v h t =
      let (col, at, named) = col_index-name schema name k.first k.found in
      rw (h, prefix_lem col at named, typed_lem v col at t) refl

  eval_lem :
      (op : ExprOp) (v : Cell) (test : Ordering → Bool)
      → eval_bin_op op c v ≡ compared test c v
      → short_circuit op c ≡ none
      → c.ty ≡ v.ty
      → eval_expr schema row (compare_to name op v) ≡ ok (bool_cell (test (cell_order c v)))
  unfolding eval_expr compared
  eval_lem op v test e s t = rw (k.found, column_value, k.cell, s, e, cmp_lem c v t) refl

  pub eval_lower :
      (strict : Bool) (v : Cell)
      → c.ty ≡ v.ty
      → eval_expr schema row (compare_to name (lower strict) v)
        ≡ ok (bool_cell (above strict (cell_order c v)))
  unfolding eval_bin_op short_circuit
  eval_lower true v t = eval_lem op_gt v is_gt refl refl t
  eval_lower false v t = eval_lem op_ge v (λ o. not (is_lt o)) refl refl t

  pub eval_upper :
      (strict : Bool) (v : Cell)
      → c.ty ≡ v.ty
      → eval_expr schema row (compare_to name (upper strict) v)
        ≡ ok (bool_cell (below strict (cell_order c v)))
  unfolding eval_bin_op short_circuit
  eval_upper true v t = eval_lem op_lt v is_lt refl refl t
  eval_upper false v t = eval_lem op_le v (λ o. not (is_gt o)) refl refl t

  order_lem :
      (v : Cell) (positive : Bool) (b : Bytes)
      → IsCell v
      → c.ty ≡ v.ty
      → encode_key_prefix schema (v ∷ []) positive ≡ some b
      → Order.cmp key b ≡ then_by (then_by (cell_order c v) eq) (beyond positive)
  order_lem v positive b h t e =
      cmp-encode_key_prefix schema row (v ∷ []) positive key b (agree v h t) k.encoded e
      ∙ subst
          (λ (ps : List ℕ).
            then_by (prefix_order row ps (v ∷ [])) (beyond positive)
            ≡ then_by (then_by (cell_order c v) eq) (beyond positive))
          (sym k.pkey_eq) (rw k.cell refl)

  -- A conjunction of two comparisons, by their values.
  pub eval_and :
      (l r : Expr) (x y : Bool)
      → eval_expr schema row l ≡ ok (bool_cell x)
      → eval_expr schema row r ≡ ok (bool_cell y)
      → eval_expr schema row (bin_op op_and l r) ≡ ok (bool_cell (x && y))
  unfolding eval_expr
  eval_and l r x y e f = rw (e, f) (and_values x y)

  pub plan_lem :
      (strict : Bool) (v : Cell) (r : Expr) (b d : Bound)
      → cmp_to_bound schema (compare_to name (lower strict) v) ≡ matched b
      → cmp_to_bound schema r ≡ matched d
      → make_range schema (some (bin_op op_and (compare_to name (lower strict) v) r))
        ≡ matched (apply_bound d (apply_bound b full_scan))
  unfolding make_range point match_all_eq match_range
  plan_lem true v r b d e f = rw (e, f) refl
  plan_lem false v r b d e f = rw (e, f) refl

  pub bound_lower :
      (strict : Bool) (v : Cell)
      → c.ty ≡ v.ty
      → cmp_to_bound schema (compare_to name (lower strict) v)
        ≡ matched (record { op = lower strict; cells = v ∷ []; start = true })
  bound_lower true v t = bound_lem op_gt v refl t
  bound_lower false v t = bound_lem op_ge v refl t

  pub bound_upper :
      (strict : Bool) (v : Cell)
      → c.ty ≡ v.ty
      → cmp_to_bound schema (compare_to name (upper strict) v)
        ≡ matched (record { op = upper strict; cells = v ∷ []; start = false })
  bound_upper true v t = bound_lem op_lt v refl t
  bound_upper false v t = bound_lem op_le v refl t

  pub lower-start :
      (strict : Bool) (v : Cell) (b : Bytes)
      → IsCell v
      → c.ty ≡ v.ty
      → encode_key_prefix schema (v ∷ []) (suffix_positive (lower strict)) ≡ some b
      → not (is_lt (Order.cmp key b)) ≡ above strict (cell_order c v)
  lower-start strict v b h t e =
      ap (λ (o : Ordering). not (is_lt o)) (order_lem v (suffix_positive (lower strict)) b h t e)
      ∙ above_start strict (cell_order c v)

  pub upper-stop :
      (strict : Bool) (v : Cell) (b : Bytes)
      → IsCell v
      → c.ty ≡ v.ty
      → encode_key_prefix schema (v ∷ []) (suffix_positive (upper strict)) ≡ some b
      → not (is_gt (Order.cmp key b)) ≡ below strict (cell_order c v)
  upper-stop strict v b h t e =
      ap (λ (o : Ordering). not (is_gt o)) (order_lem v (suffix_positive (upper strict)) b h t e)
      ∙ below_stop strict (cell_order c v)
