-- ===== src/Storage/Engine.antt =====
-- storage/kv.go: the engine with its directory: opening, and compaction of the MemTable and of the
-- SSTable levels. `fmt.Sprintf("sstable_%d", v)` is the argument `name_of`, the comparison of level sizes
-- in floating point is `Growth`, and what the disk does with a write of the metadata or of the log
-- is `Io` and `TruncateIo`; an SSTable file is written as it should. A function whose second
-- result is a Boolean returns true for a nil error.
pub mod Stored
pub mod Flush
pub mod Names
pub mod Coalesce
pub mod Answers
pub mod Pair
pub mod Loop
pub mod Compact
pub mod Restart
use db.Prelude.{
  ℕ, zero, suc, ◌+◌, ◌%◌, ◌^◌, Bool, true, false, not, ◌&&◌, List, [], ◌∷◌, ◌++◌, Option, none,
  some, Bytes, length, take, drop, get_or, ltb, ◌==◌, if◌then◌else◌,
}
use db.Prelude.Int.{ℤ, pos, ltb_ℤ}
use db.Bytes.Order.{cmp, is_eq}
use db.Storage.SortedArray
use db.Storage.SortedArray.Iter
use db.Storage.Sstable
use db.Storage.Sstable.{SortedFile}
use db.Storage.Sstable.Disk.{open_file, create}
use db.Storage.Log.{
  TruncateIo, Replayed, open_log, replay, recovered, panicked, out_of_fuel, truncate,
}
use db.Storage.Meta.{KvMetaData, Json, Io, KvMetaStore, open_store, set_data}
use db.Storage.Meta
use db.Storage.Merge.{MergedIter, merged, merged_cursor}
use db.Storage.Filter.{filter_deleted, filter_cursor}
use db.Storage.Levels.{Level, mem_iter, level_cursor, open_files}
use db.Storage.Kv.{Kv}

-- The files of the directory, the log and the metadata slots apart.
abbrev pub Dir : Type 0
Dir = Bytes → Option Bytes

abbrev pub update : Bytes → Option Bytes → Dir → Dir
update name content dir n = if is_eq (cmp n name) then content else dir n

abbrev pub content_of : Dir → Bytes → Bytes
content_of dir name = elim (dir name) [ none ↦ [] | some file ↦ file ]

pub record Engine : Type 0 where
  pub kv : Kv
  pub meta : KvMetaStore
  pub version : ℕ
  pub dir : Dir

-- GrowthFactor <= 1, and float64(lower) <= float64(GrowthFactor) * float64(upper).
pub record Growth : Type 0 where
  pub off : Bool
  pub within : ℕ → ℕ → Bool

-- f.Open() on the file of that name
abbrev pub open_at : Dir → Bytes → Option SortedFile
open_at dir name = elim (dir name) [ none ↦ none | some file ↦ open_file file ]

-- openLevels: the files up to the first that does not open.
unfoldable pub open_levels : Dir → List Bytes → List SortedFile × Bool
open_levels dir [] = ([], true)
open_levels dir (name ∷ names) =
    let rest = open_levels dir names in
    elim (open_at dir name) [ none ↦ ([], false) | some f ↦ (f ∷ rest.0, rest.1) ]

-- The engine from the metadata and what the log replays to.
unfoldable pub start : Dir → KvMetaStore → Replayed → Option Engine
start dir meta (recovered mem log) =
    let levels = open_levels dir (Meta.get meta).sstables in
    if levels.1
    then some (record {
      kv = record { log = log; mem = mem; main = levels.0 };
      meta = meta;
      version = (Meta.get meta).version;
      dir = dir;
    })
    else none
start dir meta panicked = none
start dir meta out_of_fuel = none

-- Open, on the bytes of the two metadata slots and of the log; none is an error or a panic.
unfoldable pub open_engine : Json → Dir → Bytes → Bytes → Bytes → Option Engine
open_engine json dir slot0 slot1 log =
    start dir (open_store json slot0 slot1) (replay (open_log log))

-- shouldMerge
unfoldable pub should_merge : Growth → SortedFile → SortedFile → Bool
should_merge growth upper lower =
    if growth.off then false else growth.within lower.nkeys upper.nkeys

-- kv.mem.Clear() and kv.log.Truncate()
unfoldable pub reset : TruncateIo → Engine → Engine × Bool
reset tio e =
    let (log, ok) = truncate tio e.kv.log in
    (record e { kv = record e.kv { log = log; mem = SortedArray.clear e.kv.mem } }, ok)

-- The file of the merged levels; into the last level without the tombstones. The fuel is more than
-- the records of the two files.
unfoldable pub merge_files : SortedFile → SortedFile → Bool → Bytes → Option (ℕ × Bytes)
merge_files upper lower last old =
    let est = upper.nkeys + lower.nkeys in
    let fuel = suc est in
    let c = merged_cursor level_cursor fuel in
    elim (open_files Sstable.iter (upper ∷ lower ∷ [])) [
      | none ↦ none
      | some its ↦
          let it = merged level_cursor its in
          if last
          then elim (filter_deleted c fuel it) [
            | none ↦ none
            | some it' ↦ create (filter_cursor c fuel) fuel est it' old
          ]
          else create c fuel est it old
    ]

-- os.Remove of the two files that were merged
unfoldable pub remove_old : Bytes → Bytes → Engine → Engine
remove_old a b e = record e { dir = update b none (update a none e.dir) }

module _ (json : Json) (name_of : ℕ → Bytes) where
  -- kv.version++
  abbrev pub next_version : Engine → ℕ
  next_version e = (e.version + 1) % 2 ^ 64

  -- The file is there; name it in the metadata and open the levels again.
  unfoldable pub install_at : ℕ → Io → Engine → Bytes → List Bytes → Engine × Bool
  install_at version io e file names =
      let dir = update (name_of version) (some file) e.dir in
      let written = set_data json io e.meta (record { version = version; sstables = names }) in
      let levels = open_levels dir (Meta.get written.0).sstables in
      if written.1
      then (
        record {
          kv = record e.kv { main = levels.0 };
          meta = written.0;
          version = version;
          dir = dir;
        },
        levels.1,
      )
      else (record e { meta = written.0; version = version; dir = dir }, false)

  abbrev pub install : Io → Engine → Bytes → List Bytes → Engine × Bool
  install io e = install_at (next_version e) io e

  -- compactLog. A file that could not be written is named by nothing, and left out of the directory.
  unfoldable pub compact_log : Io → TruncateIo → Engine → Engine × Bool
  compact_log io tio e =
      let mem = e.kv.mem in
      let size = SortedArray.size mem in
      let name = name_of (next_version e) in
      elim (create level_cursor (suc size) size (mem_iter (Iter.iter mem))
        (content_of e.dir name)) [
          | none ↦ (record e { version = next_version e }, false)
          | some (n, file) ↦
              let (e', ok) = install io e file (name ∷ (Meta.get e.meta).sstables) in
              if ok then reset tio e' else (e', false)
        ]

  -- compactSSTable of these two neighbours.
  unfoldable pub compact_pair : Io → Engine → ℕ → SortedFile → SortedFile → Engine × Bool
  compact_pair io e i upper lower =
      let name = name_of (next_version e) in
      let old = (Meta.get e.meta).sstables in
      elim (merge_files upper lower (i + 2 == length e.kv.main) (content_of e.dir name)) [
        | none ↦ (record e { version = next_version e }, false)
        | some (n, file) ↦
            let (e', ok) = install io e file (take i old ++ name ∷ drop (i + 2) old) in
            if ok
            then (remove_old (get_or old i []) (get_or old (i + 1) []) e', true)
            else (e', false)
      ]

  -- The loop of Compact over the levels: at i the two neighbours are main[i] and main[i + 1]. None
  -- means that the fuel ran out. The disk's answer to a metadata write goes by its version.
  unfoldable pub compact_loop : ℕ → Growth → (ℕ → Io) → ℕ → Engine → Option (Engine × Bool)
  compact_loop zero growth disk i e = none
  compact_loop (suc fuel) growth disk i e = elim (drop i e.kv.main) [
    | [] ↦ some (e, true)
    | upper ∷ files ↦ elim files [
      | [] ↦ some (e, true)
      | lower ∷ _ ↦ elim (should_merge growth upper lower) [
        | false ↦ compact_loop fuel growth disk (i + 1) e
        | true ↦
            let (e', ok) = compact_pair (disk (next_version e)) e i upper lower in
            elim ok [ true ↦ compact_loop fuel growth disk i e' | false ↦ some (e', false) ]
      ]
    ]
  ]

  -- Compact, with the threshold of the options.
  unfoldable pub compact : ℕ → ℤ → Growth → (ℕ → Io) → TruncateIo → Engine → Option (Engine × Bool)
  compact fuel threshold growth disk tio e =
      let size = SortedArray.size e.kv.mem in
      let flush = ltb 0 size && not (ltb_ℤ (pos size) threshold) in
      let (e', ok) = if flush then compact_log (disk (next_version e)) tio e else (e, true) in
      if ok then compact_loop fuel growth disk 0 e' else some (e', false)
