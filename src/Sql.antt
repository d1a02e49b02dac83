-- ===== src/Sql.antt =====
-- sql/: expressions, their evaluation, and the plan for a WHERE clause.
pub mod Expr
pub mod Stmt
pub mod Parser
pub mod Eval
pub mod Planner
pub mod Select
pub mod Engine
