-- ===== src/Sql/Eval.antt =====
-- sql/eval.go: the value of an expression on a row.
pub mod Compare
pub mod Wrap
use db.Prelude.{
  ℕ, suc, ◌-◌, ◌*◌, ◌/◌, ◌≡◌, Bool, true, false, not, ◌&&◌, ◌||◌, Option, none, some, [], ◌∷◌,
  Bytes, get_elem?, ltb, ◌==◌, if◌then◌else◌, Ordering, lt, eq, gt,
}
use db.Prelude.Int.{ℤ, pos, negsuc, ◌+ℤ◌, ◌-ℤ◌, ◌*ℤ◌, ltb_ℤ, wrap64}
use db.Bytes.Order.{is_lt, is_eq}
use db.Bytes.Order
use db.Table.Cell.{Cell, CellType, unset, type_i64, type_str}
use db.Table.Schema.{Schema, Row, col_index}
use db.Sql.Expr.{
  ExprOp, op_add, op_sub, op_mul, op_div, op_or, op_and, op_not, op_neg, op_eq, op_ne, op_le, op_ge,
  op_lt, op_gt, Expr, column, constant, bin_op, un_op, tuple,
}

pub data EvalError : Type 0 where
  no_such_column different_types not_integers division_by_zero bad_minus unknown_operator :
      EvalError
  cannot_evaluate panic : EvalError

pub data Result (A : Type 0) : Type 0 where
  ok : A → Result A
  error : EvalError → Result A

infixl 5 ◌>>=◌
abbrev pub ◌>>=◌ : {A B : Type 0} → Result A → (A → Result B) → Result B
ok a >>= f = f a
error e >>= f = error e

-- An integer Cell.
abbrev pub int_cell : ℤ → Cell
int_cell x = record { ty = type_i64; i64 = x; str = [] }

-- boolCell
abbrev pub bool_cell : Bool → Cell
bool_cell b = int_cell (if b then pos 1 else pos 0)

abbrev pub is_zero : ℤ → Bool
is_zero (pos n) = n == 0
is_zero (negsuc n) = false

abbrev pub same_type : CellType → CellType → Bool
same_type unset unset = true
same_type type_i64 type_i64 = true
same_type type_str type_str = true
same_type _ _ = false

unfoldable pub truthy : Cell → Bool
truthy c = if same_type c.ty type_str then not (is_empty c.str) else not (is_zero c.i64)
  where
    is_empty : Bytes → Bool
    is_empty [] = true
    is_empty (b ∷ s) = false

-- cmp; an Ordering stands for -1, 0 and 1.
unfoldable pub cmp_as : CellType → CellType → Cell → Cell → Result Ordering
cmp_as t u a b =
    if not (same_type t u)
    then error different_types
    else if same_type t type_str
    then ok (Order.cmp a.str b.str)
    else if ltb_ℤ a.i64 b.i64
    then ok lt
    else if ltb_ℤ b.i64 a.i64
    then ok gt
    else ok eq

unfoldable pub cmp : Cell → Cell → Result Ordering
unfolding cmp_as
cmp a b = cmp_as a.ty b.ty a b

-- Go's integer quotient, rounded to zero.
unfoldable pub quot : ℤ → ℤ → ℤ
quot (pos a) (pos b) = pos (a / b)
quot (pos a) (negsuc b) = pos 0 -ℤ pos (a / suc b)
quot (negsuc a) (pos b) = pos 0 -ℤ pos (suc a / b)
quot (negsuc a) (negsuc b) = pos (suc a / suc b)

-- The arithmetic of evalBinOp, on operands that may not be integers.
abbrev pub both_i64 : Cell → Cell → Bool
both_i64 left right = same_type left.ty type_i64 && same_type right.ty type_i64

unfoldable pub arithmetic : (ℤ → ℤ → ℤ) → Cell → Cell → Result Cell
arithmetic f left right =
    if both_i64 left right
    then ok (int_cell (wrap64 (f left.i64 right.i64)))
    else error not_integers

unfoldable pub divide : Cell → Cell → Result Cell
divide left right =
    if both_i64 left right
    then (if is_zero right.i64
        then error division_by_zero
        else ok (int_cell (wrap64 (quot left.i64 right.i64))))
    else error not_integers

unfoldable pub compared : (Ordering → Bool) → Cell → Cell → Result Cell
unfolding cmp
compared test left right = cmp left right >>= λ r. ok (bool_cell (test r))

abbrev pub is_gt : Ordering → Bool
is_gt gt = true
is_gt _ = false

-- evalBinOp
unfoldable pub eval_bin_op : ExprOp → Cell → Cell → Result Cell
unfolding truthy
eval_bin_op op_add left right = arithmetic (◌+ℤ◌) left right
eval_bin_op op_sub left right = arithmetic (◌-ℤ◌) left right
eval_bin_op op_mul left right = arithmetic (◌*ℤ◌) left right
eval_bin_op op_div left right = divide left right
eval_bin_op op_eq left right = compared is_eq left right
eval_bin_op op_ne left right = compared (λ r. not (is_eq r)) left right
eval_bin_op op_lt left right = compared is_lt left right
eval_bin_op op_le left right = compared (λ r. not (is_gt r)) left right
eval_bin_op op_gt left right = compared is_gt left right
eval_bin_op op_ge left right = compared (λ r. not (is_lt r)) left right
eval_bin_op op_and left right = ok (bool_cell (truthy left && truthy right))
eval_bin_op op_or left right = ok (bool_cell (truthy left || truthy right))
eval_bin_op op_not left right = error unknown_operator
eval_bin_op op_neg left right = error unknown_operator

-- The operators of ExprUnOp.
unfoldable pub eval_un_op : ExprOp → Cell → Result Cell
eval_un_op op_not kid = ok (bool_cell (not (truthy kid)))
eval_un_op op_neg kid =
    if same_type kid.ty type_i64 then ok (int_cell (wrap64 (pos 0 -ℤ kid.i64))) else error bad_minus
eval_un_op _ kid = error unknown_operator

-- Whether the left operand alone gives the value of AND or OR, and which.
unfoldable pub short_circuit : ExprOp → Cell → Option Cell
short_circuit op_and left = if truthy left then none else some (bool_cell false)
short_circuit op_or left = if truthy left then some (bool_cell true) else none
short_circuit _ left = none

abbrev pub or_value : Option Cell → Result Cell → Result Cell
or_value (some c) later = ok c
or_value none later = later

abbrev pub column_value : Row → Option ℕ → Result Cell
column_value row none = error no_such_column
column_value row (some i) = elim (get_elem? row i) [ none ↦ error panic | some c ↦ ok c ]

-- evalExpr
unfoldable pub eval_expr : Schema → Row → Expr → Result Cell
eval_expr schema row (column name) = column_value row (col_index schema name)
eval_expr schema row (constant cell) = ok cell
eval_expr schema row (bin_op op l r) =
    let right = eval_expr schema row r in
    eval_expr schema row l >>= λ left.
    or_value (short_circuit op left) (right >>= λ right. eval_bin_op op left right)
eval_expr schema row (un_op op kid) = eval_expr schema row kid >>= λ kid. eval_un_op op kid
eval_expr schema row (tuple kids) = error cannot_evaluate
