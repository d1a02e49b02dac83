-- ===== src/Storage/Levels/Seek.antt =====
-- `KV.Seek`: what the merged cursor without tombstones emits.
use db.Prelude.{
  ℕ, ◌≤◌, ◌<◌, ◌≡◌, refl, ap, ◌∙◌, false, List, [], ◌∷◌, some, arith, Bytes, All, length, map,
  if◌then◌else◌,
}
use native.Mathlib.Nat.{le_refl}
use db.Bytes.Order.{cmp, is_lt}
use db.Storage.Run.{Rec, IsSorted, EntryState, absent, present, tombstone, find, from}
use db.Storage.Run.From.{find-from, from-All-IsSorted, length-from}
use db.Storage.Cursor.{Emits}
use db.Storage.Sstable
use db.Storage.Sstable.{file_of}
use db.Storage.SortedArray.Iter
use db.Storage.Merge.{MergedIter, merged, merged_cursor}
use db.Storage.Merge.Reference.{merge, total, first_hit}
use db.Storage.Merge.Find.{find-merge, merge-IsSorted, length-merge}
use db.Storage.Merge.Forward.{Emits-merged}
use db.Storage.Merge.Size.{length-live}
use db.Storage.Filter.{filter_deleted}
use db.Storage.Filter.Live.{live, Emits-filter_deleted}
use db.Storage.Filter.Find.{live-IsSorted, live-kept-All, find-live, seen}
use db.Storage.Kv.{Kv, missing, get}
use db.Storage.Kv.Lookup.{IsValid, answer, get-first_hit}
use db.Storage.Levels.{Level, mem_iter, level_cursor, open_files, seek_levels, seek, kv_cursor}
use db.Storage.Levels.Emit.{Emits-mem_seek, EmitAll-open_files}

-- The records of all levels from a key on, merged, without the tombstones.
abbrev pub sought : Bytes → List (List Rec) → List Rec
sought k runs = live (merge (total (map (from k) runs)) (map (from k) runs))

first_hit-from :
    (k j : Bytes) (runs : List (List Rec))
    → first_hit j (map (from k) runs) ≡ (if is_lt (cmp j k) then absent else first_hit j runs)
first_hit-from k j [] = ground arith
first_hit-from k j (rs ∷ runs) = ground (arith, find-from k j rs, first_hit-from k j runs)

total-from : (k : Bytes) (runs : List (List Rec)) → total (map (from k) runs) ≤ total runs
total-from k [] = omega arith
total-from k (rs ∷ runs) = omega (arith, length-from k rs, total-from k runs)

pub length-sought : (k : Bytes) (runs : List (List Rec)) → length (sought k runs) ≤ total runs
length-sought k runs =
    let qs = map (from k) runs in
    omega (arith, length-live (merge (total qs) qs), length-merge (total qs) qs, total-from k runs)

answer-seen : (s : EntryState) → answer (seen s) ≡ answer s
answer-seen absent = refl
answer-seen (present v) = refl
answer-seen tombstone = refl

module _ (kv : Kv) (rs : List Rec) (runs : List (List Rec)) (v : IsValid kv rs runs) where
  seek_levels-opened :
      (k : Bytes) (its : List Level)
      → open_files (λ f. Sstable.seek f k) kv.main ≡ some its
      → seek_levels kv k ≡ some (merged level_cursor (mem_iter (Iter.seek kv.mem k) ∷ its))
  unfolding seek_levels
  seek_levels-opened k its e = ground (arith, e)

  seek-filtered :
      (fuel : ℕ) (k : Bytes) (it : MergedIter Level)
      → seek_levels kv k ≡ some it
      → seek fuel kv k ≡ filter_deleted (merged_cursor level_cursor fuel) fuel it
  unfolding seek
  seek-filtered fuel k it e = ground (arith, e)

  -- Seek succeeds, and the cursor emits the live records from the key on.
  pub Emits-seek :
      (fuel : ℕ) (k : Bytes)
      → total (rs ∷ runs) < fuel
      → (it : MergedIter Level) × (seek fuel kv k ≡ some it)
        × Emits (kv_cursor fuel) it (sought k (rs ∷ runs))
  Emits-seek fuel k enough =
      let (its, e, h) = EmitAll-open_files runs k v.sorted in
      let qs = map (from k) (rs ∷ runs) in
      let levels = mem_iter (Iter.seek kv.mem k) ∷ its in
      let emitted =
        Emits-merged level_cursor fuel levels qs (Emits-mem_seek kv.mem rs v.mem_holds k, h) in
      let small : length (merge (total qs) qs) < fuel =
        omega (arith, length-merge (total qs) qs, total-from k (rs ∷ runs)) in
      let (it, e', h') =
        Emits-filter_deleted (merged_cursor level_cursor fuel) fuel (merged level_cursor levels)
          (merge (total qs) qs) emitted small in
      let files = ap (open_files (λ f. Sstable.seek f k)) v.main_eq ∙ e in
      (
        it,
        seek-filtered fuel k (merged level_cursor levels) (seek_levels-opened k its files) ∙ e',
        h',
      )

  IsSorted-runs : All IsSorted (rs ∷ runs)
  IsSorted-runs = (v.mem_holds.sorted, v.sorted)

  pub sought-IsSorted : (k : Bytes) → IsSorted (sought k (rs ∷ runs))
  sought-IsSorted k =
      let qs = map (from k) (rs ∷ runs) in
      live-IsSorted (merge (total qs) qs)
        (merge-IsSorted (total qs) qs (from-All-IsSorted k (rs ∷ runs) IsSorted-runs))

  -- A lookup in what is emitted answers as Get does, from the key on.
  pub find-sought :
      (k j : Bytes)
      → answer (find j (sought k (rs ∷ runs))) ≡ (if is_lt (cmp j k) then missing else get kv j)
  find-sought k j =
      let qs = map (from k) (rs ∷ runs) in
      let s = from-All-IsSorted k (rs ∷ runs) IsSorted-runs in
      rw
        (
          find-live j (merge (total qs) qs) (merge-IsSorted (total qs) qs s),
          answer-seen (find j (merge (total qs) qs)),
          find-merge (total qs) qs j s (le_refl _),
          first_hit-from k j (rs ∷ runs),
          get-first_hit kv rs runs j v,
        )
        (ground arith)

  -- In a valid engine, with fuel for more than the records of all levels, `Seek` succeeds, and its
  -- cursor emits, without an error, a list that is sorted, holds no tombstone, and has for every key
  -- from the sought one on the value that `Get` returns, and no other key.
  pub seek-get :
      (fuel : ℕ) (k : Bytes)
      → total (rs ∷ runs) < fuel
      → (it : MergedIter Level) × (emitted : List Rec) × (seek fuel kv k ≡ some it)
        × Emits (kv_cursor fuel) it emitted
        × IsSorted emitted
        × All (λ r. r.deleted ≡ false) emitted
        × ((j : Bytes) → answer (find j emitted) ≡ (if is_lt (cmp j k) then missing else get kv j))
  seek-get fuel k enough =
      let (it, e, h) = Emits-seek fuel k enough in
      let qs = map (from k) (rs ∷ runs) in
      (
        it,
        sought k (rs ∷ runs),
        e,
        h,
        sought-IsSorted k,
        live-kept-All (merge (total qs) qs),
        find-sought k,
      )
