-- ===== src/Tests/Sql.antt =====
-- Expressions and plans on the rows of a small table.
use db.Prelude.{◌≡◌, refl, ap, true, false, [], ◌∷◌, some, arith, Bytes}
use db.Prelude.Int.{pos, ◌+ℤ◌, ◌-ℤ◌, ◌*ℤ◌}
use db.Bytes.Order
use db.Table.Cell.{type_i64}
use db.Table.Schema.{Column, col_index, encode_key_prefix}
use db.Sql.Expr.{op_and, op_add, op_sub, op_mul, Expr, column, constant, bin_op}
use db.Sql.Eval.{ok, cmp, eval_expr, eval_bin_op, compared, short_circuit, bool_cell}
use db.Sql.Eval.Compare.{cmp_by_key}
use db.Sql.Eval.Wrap.{exact, Wrapped, eval_expr-Wrapped}
use db.Sql.Planner.{matched, RangeReq, suffix_positive, make_range}
use db.Sql.Planner.Bounds.{lower, upper, compare_to, in_range, Keyed}
use db.Sql.Planner.TwoSided.{Selects, make_range-two_sided, make_range-overwritten}
use db.Tests.Data.{key_a, key_c, int_cell, str_cell, schema, row}
use db.Tests.Table.{
  minus_five, seven, minus_five-IsCell, seven-IsCell, minus_five_key, seven_key, minus_five_encoded,
  seven_encoded, row_key, row_encoded, str-IsCell,
}

cmp_by_key_example : cmp minus_five seven ≡ ok (Order.cmp minus_five_key seven_key)
cmp_by_key_example =
    cmp_by_key minus_five seven minus_five_key seven_key minus_five-IsCell seven-IsCell refl
      minus_five_encoded seven_encoded

-- (c + 9223372036854775807) * 2 - 9223372036854775807 * 2
abbrev largest : Expr
largest = constant (int_cell (pos 9223372036854775807))

abbrev overflowing : Expr
overflowing =
    bin_op op_sub
      (bin_op op_mul (bin_op op_add (column key_c) largest) (constant (int_cell (pos 2))))
      (bin_op op_mul largest (constant (int_cell (pos 2))))

fourteen : exact schema row overflowing ≡ some (pos 14)
unfolding col_index ◌+ℤ◌ ◌-ℤ◌ ◌*ℤ◌ Order.cmp
fourteen = refl

eval_expr-Wrapped_example : Wrapped (eval_expr schema row overflowing) (pos 14)
eval_expr-Wrapped_example =
    eval_expr-Wrapped schema row overflowing (pos 14)
      (omega arith, (omega arith, (omega arith, tt)))
      (((tt, omega arith), omega arith), (omega arith, omega arith)) fourteen

row-Keyed : Keyed schema row key_a minus_five row_key
unfolding col_index Order.cmp
row-Keyed = record {
  first = 0;
  others = 1 ∷ [];
  pkey_eq = refl;
  found = refl;
  cell = refl;
  valid = minus_five-IsCell;
  rest = ((str_cell (0 ∷ 120 ∷ []), refl, str-IsCell (0 ∷ 120 ∷ [])), tt);
  typed = λ col e.
      let same : record { name = key_a; ty = type_i64 } ≡ col = cc in
      ap (λ (x : Column). x.ty) same;
  encoded = row_encoded;
}

-- a >= -5 AND a < 7
make_range-two_sided_example : Selects schema row row_key (
    bin_op op_and (compare_to key_a (lower false) minus_five) (compare_to key_a (upper true) seven))
make_range-two_sided_example =
    make_range-two_sided schema row key_a minus_five row_key row-Keyed false true minus_five seven
      minus_five-IsCell seven-IsCell refl refl

above_seven : eval_expr schema row (compare_to key_a (lower true) seven) ≡ ok (bool_cell false)
unfolding eval_expr eval_bin_op col_index compared cmp short_circuit Order.cmp
above_seven = refl

from_minus_five :
    eval_expr schema row (compare_to key_a (lower false) minus_five) ≡ ok (bool_cell true)
unfolding eval_expr eval_bin_op col_index compared cmp short_circuit Order.cmp
from_minus_five = refl

-- a > 7 AND a >= -5
make_range-overwritten_example :
    (req : RangeReq) × (start : Bytes) × (stop : Bytes) × (make_range schema (
        some (
          bin_op op_and
            (compare_to key_a (lower true) seven)
            (compare_to key_a (lower false) minus_five)))
      ≡ matched req)
    × (encode_key_prefix schema req.start (suffix_positive req.start_cmp) ≡ some start)
    × (encode_key_prefix schema req.stop (suffix_positive req.stop_cmp) ≡ some stop)
    × (eval_expr schema row (
          bin_op op_and
            (compare_to key_a (lower true) seven)
            (compare_to key_a (lower false) minus_five))
        ≡ ok (bool_cell false))
    × (in_range row_key start stop ≡ true)
make_range-overwritten_example =
    make_range-overwritten schema row key_a minus_five row_key row-Keyed true false seven minus_five
      seven-IsCell minus_five-IsCell refl refl above_seven from_minus_five
