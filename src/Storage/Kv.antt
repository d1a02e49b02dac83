-- ===== src/Storage/Kv.antt =====
-- storage/kv.go: reads and writes of the engine over the MemTable, the log and the SSTable levels,
-- newest level first. What the file system does with a log write is the argument `Io`.
pub mod Lookup
pub mod Write
pub mod Durable
pub mod Kept
use db.Prelude.{
  Bool, true, false, not, ◌&&◌, List, [], ◌∷◌, Option, none, some, Bytes, if◌then◌else◌,
}
use db.Bytes.Order.{cmp, is_eq}
use db.Storage.Run.{EntryState, absent, present, tombstone}
use db.Storage.SortedArray
use db.Storage.SortedArray.{SortedArray}
use db.Storage.Sstable
use db.Storage.Sstable.{SortedFile, SortedFileIter}
use db.Storage.Entry.{Entry}
use db.Storage.Log.{Log, Io, write}

pub record Kv : Type 0 where
  pub log : Log
  pub mem : SortedArray
  pub main : List SortedFile

-- What Get returns: an error, no value, or the value.
pub data Got : Type 0 where
  error missing : Got
  found : Bytes → Got

-- it.Valid() && bytes.Equal(it.Key(), key), and then the tombstone or the value.
unfoldable pub look : SortedFileIter → Bytes → EntryState
look it key =
    if Sstable.valid it && is_eq (cmp (Sstable.key it) key)
    then (if Sstable.is_deleted it then tombstone else present (Sstable.val it))
    else absent

-- The SSTable levels, newest first; the first hit wins.
unfoldable pub get_main : List SortedFile → Bytes → Got
get_main [] key = missing
get_main (f ∷ main) key =
    let rest = get_main main key in
    elim (Sstable.seek f key) [
      | none ↦ error
      | some it ↦ elim (look it key) [ absent ↦ rest | tombstone ↦ missing | present v ↦ found v ]
    ]

unfoldable pub get : Kv → Bytes → Got
get kv key = elim (SortedArray.state kv.mem key) [
  | present v ↦ found v
  | tombstone ↦ missing
  | absent ↦ get_main kv.main key
]

pub data UpdateMode : Type 0 where
  mode_upsert mode_insert mode_update : UpdateMode

abbrev pub is_insert : UpdateMode → Bool
is_insert mode_insert = true
is_insert _ = false

abbrev pub is_update : UpdateMode → Bool
is_update mode_update = true
is_update _ = false

-- An error, or whether a write happened.
pub data Done : Type 0 where
  failed : Done
  done : Bool → Done

-- The log record first; the MemTable only if the log write returned nil.
unfoldable pub log_and_apply : Io → Kv → Entry → (SortedArray → SortedArray) → Kv × Done
log_and_apply io kv ent change =
    let (log, ok) = write io kv.log ent in
    if ok
    then (record kv { log = log; mem = change kv.mem }, done true)
    else (record kv { log = log }, failed)

unfoldable pub set_existing : Io → Kv → Bytes → Bytes → UpdateMode → Bool → Kv × Done
set_existing io kv key val mode existed =
    if existed && is_insert mode
    then (kv, done false)
    else if not existed && is_update mode
    then (kv, done false)
    else log_and_apply io kv (record { key = key; val = val; deleted = false })
        (λ mem. (SortedArray.set_entry mem key val).0)

unfoldable pub set_ex : Io → Kv → Bytes → Bytes → UpdateMode → Kv × Done
set_ex io kv key val mode = elim (get kv key) [
  | error ↦ (kv, failed)
  | missing ↦ set_existing io kv key val mode false
  | found v ↦ set_existing io kv key val mode true
]

unfoldable pub set_key : Io → Kv → Bytes → Bytes → Kv × Done
set_key io kv key val = set_ex io kv key val mode_upsert

unfoldable pub del : Io → Kv → Bytes → Kv × Done
del io kv key = elim (get kv key) [
  | error ↦ (kv, failed)
  | missing ↦ (kv, done false)
  | found v ↦
      log_and_apply io kv (record { key = key; val = []; deleted = true })
        (λ mem. SortedArray.del mem key)
]
