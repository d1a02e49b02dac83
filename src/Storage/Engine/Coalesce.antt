-- ===== src/Storage/Engine/Coalesce.antt =====
-- storage/kv.go: `compactSSTable` merges two neighbouring levels into one file.
use db.Prelude.{
  ℕ, suc, ◌+◌, ◌*◌, ◌^◌, ◌≤◌, ◌<◌, ◌≡◌, ◌∙◌, Bool, true, false, List, [], ◌∷◌, some, arith, Bytes,
  All, length, if◌then◌else◌,
}
use db.Storage.Run.{Rec, IsSorted, find}
use db.Storage.Cursor.{Emits}
use db.Storage.Sstable
use native.Mathlib.Nat.{le_refl}
use db.Storage.Sstable.{SortedFile, SortedFileIter, file_of}
use db.Storage.Sstable.Disk.{create, open_file}
use db.Storage.Sstable.Disk.Read.{Sized}
use db.Storage.Sstable.Disk.Write.{data_size}
use db.Storage.Sstable.Disk.Open.{open_file-create}
use db.Storage.Merge.{MergedIter, merged, merged_cursor}
use db.Storage.Merge.Reference.{merge, total, first_hit}
use db.Storage.Merge.Find.{find-merge, merge-IsSorted, length-merge, All-merge}
use db.Storage.Merge.Forward.{Emits-merged}
use db.Storage.Merge.Size.{data_size-merge, data_size-live, length-live}
use db.Storage.Filter.{filter_deleted, filter_cursor}
use db.Storage.Filter.Live.{live, Emits-filter_deleted}
use db.Storage.Filter.Find.{live-IsSorted, All-live}
use db.Storage.Levels.{Level, file_iter, level_cursor, open_files}
use db.Storage.Levels.Emit.{Emits-file_iter}
use db.Storage.Engine.{merge_files}

-- The two levels as one; the last level keeps no tombstone.
abbrev pub both : List Rec → List Rec → List Rec
both upper lower = merge (total (upper ∷ lower ∷ [])) (upper ∷ lower ∷ [])

abbrev pub coalesced : Bool → List Rec → List Rec → List Rec
coalesced last upper lower = if last then live (both upper lower) else both upper lower

module _ (fu fl : SortedFile) (old : Bytes) (its : List Level)
    (opened : open_files Sstable.iter (fu ∷ fl ∷ []) ≡ some its) where
  abbrev fuel : ℕ
  fuel = suc (fu.nkeys + fl.nkeys)

  kept_step :
      merge_files fu fl false old
      ≡ create
          (merged_cursor level_cursor fuel)
          fuel
          (fu.nkeys + fl.nkeys)
          (merged level_cursor its)
          old
  unfolding merge_files
  kept_step = ground (arith, opened)

  last_step :
      (it : MergedIter Level)
      → filter_deleted (merged_cursor level_cursor fuel) fuel (merged level_cursor its) ≡ some it
      → merge_files fu fl true old
        ≡ create
            (filter_cursor (merged_cursor level_cursor fuel) fuel)
            fuel
            (fu.nkeys + fl.nkeys)
            it
            old
  unfolding merge_files
  last_step it e = ground (arith, opened, e)

module _ (upper lower : List Rec) where
  pub coalesced-IsSorted :
      (last : Bool) → IsSorted upper → IsSorted lower → IsSorted (coalesced last upper lower)
  coalesced-IsSorted false su sl =
      merge-IsSorted (total (upper ∷ lower ∷ [])) (upper ∷ lower ∷ []) (su, (sl, tt))
  coalesced-IsSorted true su sl =
      live-IsSorted (both upper lower)
        (merge-IsSorted (total (upper ∷ lower ∷ [])) (upper ∷ lower ∷ []) (su, (sl, tt)))

  -- The merged level says of a key what the two do, the last one with nothing for a tombstone.
  pub find-both :
      (k : Bytes)
      → IsSorted upper
      → IsSorted lower
      → find k (both upper lower) ≡ first_hit k (upper ∷ lower ∷ [])
  find-both k su sl =
      find-merge (total (upper ∷ lower ∷ [])) (upper ∷ lower ∷ []) k (su, (sl, tt)) (le_refl _)

  length-both : length (both upper lower) ≤ length upper + length lower
  length-both = omega (arith, length-merge (total (upper ∷ lower ∷ [])) (upper ∷ lower ∷ []))

  data_size-both : data_size (both upper lower) ≤ data_size upper + data_size lower
  data_size-both = omega (arith, data_size-merge (total (upper ∷ lower ∷ [])) (upper ∷ lower ∷ []))

  pub coalesced-Sized :
      (last : Bool) → All Sized upper → All Sized lower → All Sized (coalesced last upper lower)
  coalesced-Sized false zu zl =
      All-merge Sized (total (upper ∷ lower ∷ [])) (upper ∷ lower ∷ []) (zu, (zl, tt))
  coalesced-Sized true zu zl =
      All-live Sized (both upper lower)
        (All-merge Sized (total (upper ∷ lower ∷ [])) (upper ∷ lower ∷ []) (zu, (zl, tt)))

  pub length-coalesced :
      (last : Bool) → length (coalesced last upper lower) ≤ length upper + length lower
  length-coalesced false = length-both
  length-coalesced true = omega (arith, length-live (both upper lower), length-both)

  pub data_size-coalesced :
      (last : Bool) → data_size (coalesced last upper lower) ≤ data_size upper + data_size lower
  data_size-coalesced false = data_size-both
  data_size-coalesced true = omega (arith, data_size-live (both upper lower), data_size-both)

  -- Merging the files of two sorted runs, of records whose key and value take less than 2 ^ 32 bytes, into a
  -- file that an int64 can address, succeeds whatever a file of the new name held. The file opens, and has the merge of the
  -- two runs, the upper one first; into the last level, without the tombstones.
  pub merge_files_lem :
      (last : Bool) (old : Bytes)
      → IsSorted upper
      → IsSorted lower
      → All Sized upper
      → All Sized lower
      → 8 + 8 * (length upper + length lower) + (data_size upper + data_size lower) < 2 ^ 63
      → (n : ℕ) × (file : Bytes) × (merge_files (file_of upper) (file_of lower) last old
          ≡ some (n, file))
        × (open_file file ≡ some (file_of (coalesced last upper lower)))
  merge_files_lem last old su sl zu zl s =
      let (u, eu, hu) = Emits-file_iter upper in
      let (l, el, hl) = Emits-file_iter lower in
      let its = file_iter u ∷ file_iter l ∷ [] in
      let opened : open_files Sstable.iter (file_of upper ∷ file_of lower ∷ []) ≡ some its =
        open_two u l eu el in
      let est = length upper + length lower in
      let c = merged_cursor level_cursor (suc est) in
      let emitted : Emits c (merged level_cursor its) (both upper lower) =
        Emits-merged level_cursor (suc est) its (upper ∷ lower ∷ []) (hu, (hl, tt)) in
      build last its opened emitted
    where
      open_two :
          (u l : SortedFileIter)
          → Sstable.iter (file_of upper) ≡ some u
          → Sstable.iter (file_of lower) ≡ some l
          → open_files Sstable.iter (file_of upper ∷ file_of lower ∷ [])
            ≡ some (file_iter u ∷ file_iter l ∷ [])
      open_two u l eu el = unfold open_files in ground (arith, eu, el)

      build :
          (last : Bool) (its : List Level)
          → open_files Sstable.iter (file_of upper ∷ file_of lower ∷ []) ≡ some its
          → Emits
              (merged_cursor level_cursor (suc (length upper + length lower)))
              (merged level_cursor its)
              (both upper lower)
          → (n : ℕ) × (file : Bytes) × (merge_files (file_of upper) (file_of lower) last old
              ≡ some (n, file))
            × (open_file file ≡ some (file_of (coalesced last upper lower)))
      build false its opened emitted =
          let est = length upper + length lower in
          let (file, made, back) =
            open_file-create (merged_cursor level_cursor (suc est)) (suc est) est
              (merged level_cursor its) old (both upper lower) emitted (coalesced-Sized false zu zl)
              length-both (omega (arith, length-both)) (omega (arith, data_size-both)) in
          (
            length (both upper lower),
            file,
            kept_step (file_of upper) (file_of lower) old its opened ∙ made,
            back,
          )
      build true its opened emitted =
          let est = length upper + length lower in
          let c = merged_cursor level_cursor (suc est) in
          let (it, e, h) =
            Emits-filter_deleted c (suc est) (merged level_cursor its) (both upper lower) emitted
              (omega (arith, length-both)) in
          let (file, made, back) =
            open_file-create (filter_cursor c (suc est)) (suc est) est it old
              (live (both upper lower)) h (coalesced-Sized true zu zl) (length-coalesced true)
              (omega (arith, length-coalesced true)) (omega (arith, data_size-coalesced true)) in
          (
            length (live (both upper lower)),
            file,
            last_step (file_of upper) (file_of lower) old its opened it e ∙ made,
            back,
          )
