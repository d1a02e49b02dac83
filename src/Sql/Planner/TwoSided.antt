-- ===== src/Sql/Planner/TwoSided.antt =====
-- sql/planner.go: a conjunction of two comparisons of the first key column with constants, as the range of
-- keys that is planned for it and as the expression that sql/eval.go evaluates.
use db.Prelude.{◌≡◌, refl, sym, subst, ◌∙◌, Bool, true, false, [], ◌∷◌, some, Bytes, All, lt}
use db.Bytes.Order
use db.Bytes.Order.{is_lt, is_eq, cmp_refl}
use db.Table.Cell.{Cell}
use db.Table.Cell.Order.{IsCell, cell_order}
use db.Table.Schema.{Schema, Row, encode_key_prefix}
use db.Table.Schema.Order.{Encodes}
use db.Table.Schema.Prefix.{AgreePrefix, cmp-encode_key_prefix, some-encode_key_prefix}
use db.Sql.Expr.{op_and, op_le, Expr, bin_op}
use db.Sql.Eval.{ok, bool_cell, eval_expr}
use db.Sql.Planner.{matched, RangeReq, is_descending, suffix_positive, apply_bound, make_range}
use db.Sql.Planner.Bounds.{
  lower, upper, compare_to, above, below, in_range, Keyed, lower-ascending, bool_cell_inj, agree,
  eval_lower, eval_upper, eval_and, plan_lem, bound_lower, bound_upper, lower-start, upper-stop,
}

-- What is planned for a condition, and that the rows in the planned range are those that satisfy it.
pub record Selects (schema : Schema) (row : Row) (key : Bytes) (cond : Expr) : Type 0 where
  pub req : RangeReq
  pub start : Bytes
  pub stop : Bytes
  pub planned : make_range schema (some cond) ≡ matched req
  pub ascending : is_descending req.start_cmp ≡ false
  pub start_eq : encode_key_prefix schema req.start (suffix_positive req.start_cmp) ≡ some start
  pub stop_eq : encode_key_prefix schema req.stop (suffix_positive req.stop_cmp) ≡ some stop
  pub exact : eval_expr schema row cond ≡ ok (bool_cell (in_range key start stop))

module _ (schema : Schema) (row : Row) (name : Bytes) (c : Cell) (key : Bytes)
    (k : Keyed schema row name c key) where
  -- For a row with a key, whose key columns hold valid cells, the first of its column's type, and for a
  -- conjunction of a lower bound (> or >=) on the first key column and an upper one (< or <=), in this
  -- order, with valid constants of that type: an ascending range is planned, its bounds encode, and the
  -- conjunction evaluates on the row to whether the row's key is in the range, both bounds included.
  pub make_range-two_sided :
      (s t : Bool) (v w : Cell)
      → IsCell v
      → IsCell w
      → c.ty ≡ v.ty
      → c.ty ≡ w.ty
      → Selects schema row key
          (bin_op op_and (compare_to name (lower s) v) (compare_to name (upper t) w))
  unfolding apply_bound
  make_range-two_sided s t v w hv hw tv tw =
      let (start, e) =
        some-encode_key_prefix schema row (v ∷ []) (suffix_positive (lower s))
          (agree schema row name c key k v hv tv) in
      let (stop, f) =
        some-encode_key_prefix schema row (w ∷ []) (suffix_positive (upper t))
          (agree schema row name c key k w hw tw) in
      record {
        req = record { start_cmp = lower s; stop_cmp = upper t; start = v ∷ []; stop = w ∷ [] };
        start = start;
        stop = stop;
        planned =
            plan_lem schema row name c key k s v (compare_to name (upper t) w) _ _
              (bound_lower schema row name c key k s v tv)
              (bound_upper schema row name c key k t w tw);
        ascending = lower-ascending s;
        start_eq = e;
        stop_eq = f;
        exact =
            rw
              (
                lower-start schema row name c key k s v start hv tv e,
                upper-stop schema row name c key k t w stop hw tw f,
              )
              (eval_and schema row name c key k (compare_to name (lower s) v)
                (compare_to name (upper t) w) (above s (cell_order c v)) (below t (cell_order c w))
                (eval_lower schema row name c key k s v tv)
                (eval_upper schema row name c key k t w tw));
      }

  -- For a row with a key, whose key columns hold valid cells, the first of its column's type, and for a
  -- conjunction of two lower bounds (> or >=) on the first key column with valid constants of that type,
  -- where the left comparison is false of the row and the right one is true: the conjunction evaluates to
  -- false, and yet the range that is planned for it, whose bounds encode, has the row's key.
  pub make_range-overwritten :
      (s t : Bool) (v w : Cell)
      → IsCell v
      → IsCell w
      → c.ty ≡ v.ty
      → c.ty ≡ w.ty
      → eval_expr schema row (compare_to name (lower s) v) ≡ ok (bool_cell false)
      → eval_expr schema row (compare_to name (lower t) w) ≡ ok (bool_cell true)
      → (req : RangeReq) × (start : Bytes) × (stop : Bytes) × (make_range schema
            (some (bin_op op_and (compare_to name (lower s) v) (compare_to name (lower t) w)))
          ≡ matched req)
        × (encode_key_prefix schema req.start (suffix_positive req.start_cmp) ≡ some start)
        × (encode_key_prefix schema req.stop (suffix_positive req.stop_cmp) ≡ some stop)
        × (eval_expr schema row
              (bin_op op_and (compare_to name (lower s) v) (compare_to name (lower t) w))
            ≡ ok (bool_cell false))
        × (in_range key start stop ≡ true)
  unfolding apply_bound
  make_range-overwritten s t v w hv hw tv tw fails passes =
      let (start, e) =
        some-encode_key_prefix schema row (w ∷ []) (suffix_positive (lower t))
          (agree schema row name c key k w hw tw) in
      let (stop, f) = some-encode_key_prefix schema row [] (suffix_positive op_le) every in
      let holds : above t (cell_order c w) ≡ true =
        bool_cell_inj (above t (cell_order c w)) true
          (sym (eval_lower schema row name c key k t w tw) ∙ passes) in
      let behind : Order.cmp key stop ≡ lt =
        unfold suffix_positive in
        cmp-encode_key_prefix schema row [] (suffix_positive op_le) key stop every k.encoded f in
      (
        record { start_cmp = lower t; stop_cmp = op_le; start = w ∷ []; stop = [] },
        start,
        stop,
        plan_lem schema row name c key k s v (compare_to name (lower t) w) _ _
            (bound_lower schema row name c key k s v tv)
            (bound_lower schema row name c key k t w tw),
        e,
        f,
        eval_and schema row name c key k (compare_to name (lower s) v) (compare_to name (lower t) w)
            false true fails passes,
        rw (lower-start schema row name c key k t w start hw tw e, holds, behind) refl,
      )
    where
      every : AgreePrefix row schema.pkey []
      every = subst (All (Encodes row)) (sym k.pkey_eq) ((c, k.cell, k.valid), k.rest)
