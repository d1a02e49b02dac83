-- ===== src/Tests.antt =====
-- Concrete runs of the theorems, and small tests.
mod Data
mod Kv
mod Log
mod Array
mod Merge
mod Meta
mod Table
mod Sql
mod Scan
mod Exec
mod Select
mod Parser
mod Engine
