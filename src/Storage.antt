-- ===== src/Storage.antt =====
-- storage/: the log-structured merge engine over byte keys and values.
pub mod Run
pub mod SortedArray
pub mod Entry
pub mod Cursor
pub mod Filter
pub mod Levels
pub mod Ranged
pub mod Engine
pub mod Sstable
pub mod Merge
pub mod Log
pub mod Meta
pub mod Kv
