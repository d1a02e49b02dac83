-- ===== src/Table.antt =====
-- table/: typed cells, rows and schemas over the key-value store.
pub mod Cell
pub mod Schema
pub mod Db
pub mod RowIter
