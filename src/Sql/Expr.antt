-- ===== src/Sql/Expr.antt =====
-- sql/expr.go, sql/planner.go: the expression tree that the parser builds.
use db.Prelude.{Bytes}
use db.Table.Cell.{Cell}

pub data ExprOp : Type 0 where
  op_add op_sub op_mul op_div op_or op_and op_not op_neg op_eq op_ne op_le op_ge op_lt op_gt :
      ExprOp

-- interface{}: a column name, a *Cell, *ExprBinOp, *ExprUnOp or *ExprTuple.
mutual
  pub data Expr : Type 0 where
    column : Bytes → Expr
    constant : Cell → Expr
    bin_op : ExprOp → Expr → Expr → Expr
    un_op : ExprOp → Expr → Expr
    tuple : Exprs → Expr

  pub data Exprs : Type 0 where
    no_more : Exprs
    one_more : Expr → Exprs → Exprs
