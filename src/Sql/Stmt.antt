-- ===== src/Sql/Stmt.antt =====
-- sql/stmt.go: the statements that the parser gives to the executor.
use db.Prelude.{Bytes, List, Option}
use db.Table.Cell.{Cell}
use db.Table.Schema.{Column}
use db.Sql.Expr.{Expr}

pub record StmtSelect : Type 0 where
  pub table : Bytes
  pub cols : List Expr
  pub cond : Option Expr

pub record ExprAssign : Type 0 where
  pub column : Bytes
  pub expr : Expr

pub record StmtCreatTable : Type 0 where
  pub table : Bytes
  pub cols : List Column
  pub pkey : List Bytes

pub record StmtInsert : Type 0 where
  pub table : Bytes
  pub value : List Cell

pub record StmtUpdate : Type 0 where
  pub table : Bytes
  pub cond : Option Expr
  pub value : List ExprAssign

pub record StmtDelete : Type 0 where
  pub table : Bytes
  pub cond : Option Expr

-- The interface{} that ParseStmt returns.
pub data Stmt : Type 0 where
  select : StmtSelect → Stmt
  create_table : StmtCreatTable → Stmt
  insert : StmtInsert → Stmt
  update : StmtUpdate → Stmt
  delete : StmtDelete → Stmt
