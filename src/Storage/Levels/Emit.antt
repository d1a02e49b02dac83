-- ===== src/Storage/Levels/Emit.antt =====
-- The cursor of each kind of level emits the run that the level holds.
use db.Prelude.{
  ℕ, zero, suc, ◌+◌, ◌≤◌, ◌<◌, ◌≡◌, refl, ap, true, false, List, [], ◌∷◌, some, map, arith, All,
  Bytes, length, get_elem?, get_or, drop, ltb, inl, inr, Bool-cases, drop_past, drop-get_or,
  get_elem?-past, get_elem?-some, get_elem?-get_or,
}
use db.Prelude.Int.{pos, ◌+ℤ◌}
use db.Storage.Run.{Rec, IsSorted, from}
use db.Storage.Cursor.{current_rec, Emits, EmitAll}
use db.Storage.SortedArray.{SortedArray}
use db.Storage.SortedArray.Search.{rank}
use db.Storage.SortedArray.Refines.{Holds, search_lem}
use db.Storage.SortedArray.Iter
use db.Storage.SortedArray.Iter.{SortedArrayIter, none_rec, length_eq, row, next_pos, drop-rank}
use db.Storage.Sstable
use db.Storage.Sstable.{SortedFileIter, file_of}
use db.Storage.Sstable.Search.{search-file_of}
use db.Storage.Levels.{Level, mem_iter, file_iter, level_cursor, open_files}

module _ (a : SortedArray) (rs : List Rec) (h : Holds a rs) where
  abbrev mem_at : ℕ → Level
  mem_at i = mem_iter (record { a = a; position = pos i })

  mem_past : (i : ℕ) → length rs ≤ i → Iter.valid (record { a = a; position = pos i }) ≡ false
  unfolding Iter.valid
  mem_past i p = ground (arith, length_eq a rs h)

  mem_in : (i : ℕ) → i < length rs → Iter.valid (record { a = a; position = pos i }) ≡ true
  unfolding Iter.valid
  mem_in i p = ground (arith, length_eq a rs h)

  mem_current : (i : ℕ) → i < length rs → current_rec level_cursor (mem_at i) ≡ get_or rs i none_rec
  unfolding Iter.key Iter.val Iter.is_deleted
  mem_current i p = row a rs h i p

  Emits-mem_at : (n i : ℕ) → length rs ≤ n + i → Emits level_cursor (mem_at i) (drop i rs)
  Emits-mem_at zero i l = rw (drop_past rs i (omega arith)) (mem_past i (omega arith))
  Emits-mem_at (suc n) i l = elim (Bool-cases (ltb i (length rs))) [
    | inr t ↦ rw (drop_past rs i (ground arith)) (mem_past i (ground arith))
    | inl t ↦
        let p : i < length rs = ground arith in
        rw (drop-get_or rs i none_rec p) (
          mem_in i p,
          mem_current i p,
          mem_at (suc i),
          ap (λ (it : SortedArrayIter). some (mem_iter it)) (next_pos a rs h i p),
          Emits-mem_at n (suc i) (omega arith),
        )
  ]

  -- The MemTable from a key on, and the whole.
  pub Emits-mem_seek : (k : Bytes) → Emits level_cursor (mem_iter (Iter.seek a k)) (from k rs)
  unfolding Iter.seek
  Emits-mem_seek k =
      rw (search_lem a rs k h, ← drop-rank k rs h.sorted)
        (Emits-mem_at (length rs) (rank k rs) (omega arith))

  pub Emits-mem_iter : Emits level_cursor (mem_iter (Iter.iter a)) rs
  unfolding Iter.iter
  Emits-mem_iter = Emits-mem_at (length rs) 0 (omega arith)

module _ (rs : List Rec) where
  abbrev file_at : ℕ → SortedFileIter
  file_at i = record { file = file_of rs; position = pos i; cached = get_elem? rs i }

  load-file_at : (i : ℕ) → Sstable.load (file_of rs) (pos i) ≡ some (file_at i)
  unfolding Sstable.load
  load-file_at i = elim (Bool-cases (ltb i (length rs))) [
    | inl t ↦ let (r, e) = get_elem?-some rs i (ground arith) in ground (arith, e)
    | inr t ↦ let e = get_elem?-past rs i (ground arith) in ground (arith, e)
  ]

  file_past : (i : ℕ) → length rs ≤ i → Sstable.valid (file_at i) ≡ false
  unfolding Sstable.valid
  file_past i p = ground arith

  file_in : (i : ℕ) → i < length rs → Sstable.valid (file_at i) ≡ true
  unfolding Sstable.valid
  file_in i p = ground arith

  file_next : (i : ℕ) → i < length rs → Sstable.next (file_at i) ≡ some (file_at (suc i))
  unfolding Sstable.next ◌+ℤ◌
  file_next i p = ground (arith, load-file_at (suc i))

  file_current :
      (i : ℕ)
      → i < length rs
      → current_rec level_cursor (file_iter (file_at i)) ≡ get_or rs i none_rec
  unfolding Sstable.key Sstable.val Sstable.is_deleted
  file_current i p = rw (get_elem?-get_or rs i none_rec p)

  Emits-file_at :
      (n i : ℕ) → length rs ≤ n + i → Emits level_cursor (file_iter (file_at i)) (drop i rs)
  Emits-file_at zero i l = rw (drop_past rs i (omega arith)) (file_past i (omega arith))
  Emits-file_at (suc n) i l = elim (Bool-cases (ltb i (length rs))) [
    | inr t ↦ rw (drop_past rs i (ground arith)) (file_past i (ground arith))
    | inl t ↦
        let p : i < length rs = ground arith in
        rw (drop-get_or rs i none_rec p) (
          file_in i p,
          file_current i p,
          file_iter (file_at (suc i)),
          ground (arith, file_next i p),
          Emits-file_at n (suc i) (omega arith),
        )
  ]

  -- A file from a key on, and the whole.
  pub Emits-file_seek :
      (k : Bytes)
      → IsSorted rs
      → (it : SortedFileIter) × (Sstable.seek (file_of rs) k ≡ some it)
        × Emits level_cursor (file_iter it) (from k rs)
  unfolding Sstable.seek
  Emits-file_seek k s = (
    file_at (rank k rs),
    ground (arith, search-file_of k rs s, load-file_at (rank k rs)),
    rw (← drop-rank k rs s) (Emits-file_at (length rs) (rank k rs) (omega arith)),
  )

  pub Emits-file_iter :
      (it : SortedFileIter) × (Sstable.iter (file_of rs) ≡ some it)
      × Emits level_cursor (file_iter it) rs
  unfolding Sstable.iter
  Emits-file_iter = (file_at 0, load-file_at 0, Emits-file_at (length rs) 0 (omega arith))

-- Seeking in every file.
pub EmitAll-open_files :
    (runs : List (List Rec)) (k : Bytes)
    → All IsSorted runs
    → (its : List Level) × (open_files (λ f. Sstable.seek f k) (map file_of runs) ≡ some its)
      × EmitAll level_cursor its (map (from k) runs)
unfolding open_files
EmitAll-open_files [] k s = ([], refl, tt)
EmitAll-open_files (rs ∷ runs) k s =
    let (it, e, h) = Emits-file_seek rs k s.0 in
    let (its, es, hs) = EmitAll-open_files runs k s.1 in
    (file_iter it ∷ its, ground (arith, e, es), (h, hs))
