-- ===== src/Storage/Kv/Lookup.antt =====
-- `Get` reads the first level that knows the key.
use db.Prelude.{
  ℕ, ◌<◌, ◌≤◌, ◌≡◌, refl, sym, ap, ◌∙◌, List, [], ◌∷◌, map, Option, none, some, arith, Bytes, All,
  length, get_elem?, get_elem?-some, get_elem?-past, ltb, if◌then◌else◌, inl, inr, Bool-cases,
  Ordering-cases,
}
use db.Prelude.Int.{pos}
use db.Bytes.Order.{cmp, is_eq}
use db.Storage.Run.{Rec, IsSorted, EntryState, absent, present, state_of, find}
use db.Storage.Run.Laws.{find-cons, find-nil, find_past}
use db.Storage.SortedArray.Search.{rank}
use db.Storage.SortedArray.Refines.{Holds, state-find}
use db.Storage.Sstable
use db.Storage.Sstable.{SortedFileIter, file_of}
use db.Storage.Sstable.Search.{search-file_of}
use db.Storage.Merge.Reference.{first_hit}
use db.Storage.Kv.{Kv, Got, missing, found, look, get_main, get}

-- The engine holds these sorted runs: the MemTable's, and the SSTables' without a read error.
pub record IsValid (kv : Kv) (rs : List Rec) (runs : List (List Rec)) : Type 0 where
  pub mem_holds : Holds kv.mem rs
  pub main_eq : kv.main ≡ map file_of runs
  pub sorted : All IsSorted runs

-- What a client can see of a state.
abbrev pub answer : EntryState → Got
answer (present v) = found v
answer _ = missing

abbrev row_state : Bytes → Option Rec → EntryState
row_state k none = absent
row_state k (some r) = if is_eq (cmp r.key k) then state_of r else absent

row_state-find :
    (k : Bytes) (rs : List Rec) → IsSorted rs → row_state k (get_elem? rs (rank k rs)) ≡ find k rs
unfolding rank
row_state-find k [] s = sym (find-nil k)
row_state-find k (r ∷ rs) s = elim (Ordering-cases (cmp r.key k)) [
  | inl e ↦ ground (arith, find-cons k r rs, row_state-find k rs s.1)
  | inr (inl e) ↦ ground (arith, find-cons k r rs)
  | inr (inr e) ↦ ground (arith, find_past k r rs s e)
]

abbrev cursor_at : List Rec → ℕ → Option Rec → SortedFileIter
cursor_at rs i o = record { file = file_of rs; position = pos i; cached = o }

load_in :
    (rs : List Rec) (i : ℕ) (r : Rec)
    → get_elem? rs i ≡ some r
    → i < length rs
    → Sstable.load (file_of rs) (pos i) ≡ some (cursor_at rs i (some r))
unfolding Sstable.load
load_in rs i r e h = ground (arith, e)

load_past :
    (rs : List Rec) (i : ℕ)
    → length rs ≤ i
    → Sstable.load (file_of rs) (pos i) ≡ some (cursor_at rs i none)
unfolding Sstable.load
load_past rs i h = ground arith

look_in :
    (rs : List Rec) (i : ℕ) (r : Rec) (k : Bytes)
    → i < length rs
    → look (cursor_at rs i (some r)) k ≡ row_state k (some r)
unfolding look Sstable.valid Sstable.key Sstable.val Sstable.is_deleted
look_in rs i r k h = ground arith

look_past :
    (rs : List Rec) (i : ℕ) (k : Bytes) → length rs ≤ i → look (cursor_at rs i none) k ≡ absent
unfolding look Sstable.valid
look_past rs i k h = ground arith

load_row :
    (rs : List Rec) (k : Bytes) (i : ℕ)
    → (it : SortedFileIter) × (Sstable.load (file_of rs) (pos i) ≡ some it)
      × (look it k ≡ row_state k (get_elem? rs i))
load_row rs k i = elim (Bool-cases (ltb i (length rs))) [
  | inl t ↦
      let (r, e) = get_elem?-some rs i (ground arith) in
      (
        cursor_at rs i (some r),
        load_in rs i r e (ground arith),
        look_in rs i r k (ground arith) ∙ ap (row_state k) (sym e),
      )
  | inr t ↦ (
    cursor_at rs i none,
    load_past rs i (ground arith),
    look_past rs i k (ground arith) ∙ ap (row_state k) (sym (get_elem?-past rs i (ground arith))),
  )
]

seek-load :
    (rs : List Rec) (k : Bytes)
    → IsSorted rs
    → Sstable.seek (file_of rs) k ≡ Sstable.load (file_of rs) (pos (rank k rs))
unfolding Sstable.seek
seek-load rs k s = ground (arith, search-file_of k rs s)

-- Seeking in a file and looking at the cursor reads the file's run.
seek-find :
    (rs : List Rec) (k : Bytes)
    → IsSorted rs
    → (it : SortedFileIter) × (Sstable.seek (file_of rs) k ≡ some it) × (look it k ≡ find k rs)
seek-find rs k s =
    let (it, e, h) = load_row rs k (rank k rs) in
    (it, seek-load rs k s ∙ e, h ∙ row_state-find k rs s)

get_main-first_hit :
    (runs : List (List Rec)) (k : Bytes)
    → All IsSorted runs
    → get_main (map file_of runs) k ≡ answer (first_hit k runs)
unfolding get_main
get_main-first_hit [] k s = refl
get_main-first_hit (rs ∷ runs) k s =
    let (it, e, h) = seek-find rs k s.0 in ground (arith, e, h, get_main-first_hit runs k s.1)

-- In an engine whose MemTable and files hold sorted runs, and whose files read without an error,
-- `Get` returns what the newest level that knows the key says: its value, or nothing under a
-- tombstone. It returns nothing for a key that no level knows, and no error.
pub get-first_hit :
    (kv : Kv) (rs : List Rec) (runs : List (List Rec)) (k : Bytes)
    → IsValid kv rs runs
    → get kv k ≡ answer (first_hit k (rs ∷ runs))
unfolding get
get-first_hit kv rs runs k v = ground (
  arith,
  state-find kv.mem rs k v.mem_holds,
  ap (λ fs. get_main fs k) v.main_eq,
  get_main-first_hit runs k v.sorted,
)
