-- ===== src/Storage/Levels.antt =====
-- storage/kv.go: the levels of the engine behind one cursor, the MemTable first and then the SSTables,
-- merged and without tombstones (`levels`, `MergedSortedKV.Seek` and `Iter`, `KV.Seek`).
pub mod Emit
pub mod Seek
use db.Prelude.{ℕ, Bool, List, [], ◌∷◌, Option, none, some, Bytes}
use db.Storage.Cursor.{Cursor}
use db.Storage.SortedArray.Iter
use db.Storage.SortedArray.Iter.{SortedArrayIter}
use db.Storage.Sstable
use db.Storage.Sstable.{SortedFile, SortedFileIter}
use db.Storage.Merge.{MergedIter, merged, merged_cursor}
use db.Storage.Filter.{filter_deleted, filter_cursor}
use db.Storage.Kv.{Kv}

-- A SortedKVIter of one level: the dynamic type of the interface value.
pub data Level : Type 0 where
  mem_iter : SortedArrayIter → Level
  file_iter : SortedFileIter → Level

abbrev level_valid : Level → Bool
level_valid (mem_iter it) = Iter.valid it
level_valid (file_iter it) = Sstable.valid it

abbrev level_key : Level → Bytes
level_key (mem_iter it) = Iter.key it
level_key (file_iter it) = Sstable.key it

abbrev level_val : Level → Bytes
level_val (mem_iter it) = Iter.val it
level_val (file_iter it) = Sstable.val it

abbrev level_deleted : Level → Bool
level_deleted (mem_iter it) = Iter.is_deleted it
level_deleted (file_iter it) = Sstable.is_deleted it

abbrev opened : Option SortedFileIter → Option Level
opened none = none
opened (some it) = some (file_iter it)

abbrev level_next : Level → Option Level
level_next (mem_iter it) = some (mem_iter (Iter.next it))
level_next (file_iter it) = opened (Sstable.next it)

abbrev level_prev : Level → Option Level
level_prev (mem_iter it) = some (mem_iter (Iter.prev it))
level_prev (file_iter it) = opened (Sstable.prev it)

abbrev pub level_cursor : Cursor Level
level_cursor = record {
  valid = level_valid;
  key = level_key;
  val = level_val;
  is_deleted = level_deleted;
  next = level_next;
  prev = level_prev;
}

-- The loop of `cursor` in storage/merge.go over the SSTables, with the opening function of each.
unfoldable pub open_files :
    (SortedFile → Option SortedFileIter) → List SortedFile → Option (List Level)
open_files open_file [] = some []
open_files open_file (f ∷ fs) =
    let rest = open_files open_file fs in
    elim (open_file f) [
      | none ↦ none
      | some it ↦ elim rest [ none ↦ none | some its ↦ some (file_iter it ∷ its) ]
    ]

-- kv.levels().Seek(key)
unfoldable pub seek_levels : Kv → Bytes → Option (MergedIter Level)
seek_levels kv key = elim (open_files (λ f. Sstable.seek f key) kv.main) [
  | none ↦ none
  | some its ↦ some (merged level_cursor (mem_iter (Iter.seek kv.mem key) ∷ its))
]

-- KV.Seek: the cursor, and what its methods are. The loops below take the fuel.
unfoldable pub seek : ℕ → Kv → Bytes → Option (MergedIter Level)
seek fuel kv key = elim (seek_levels kv key) [
  | none ↦ none
  | some it ↦ filter_deleted (merged_cursor level_cursor fuel) fuel it
]

abbrev pub kv_cursor : ℕ → Cursor (MergedIter Level)
kv_cursor fuel = filter_cursor (merged_cursor level_cursor fuel) fuel
