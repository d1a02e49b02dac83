-- ===== src/Storage/SortedArray/Refines.antt =====
-- The MemTable's operations are those of the sorted run that it holds.
use db.Prelude.{
  ◌≡◌, ◌∙◌, Bool, true, false, not, List, [], ◌∷◌, map, arith, Bytes, get_or, set, insert_at,
  if◌then◌else◌, inl, inr, Bool-cases, Ordering-cases,
}
use db.Bytes.Order.{cmp, eq_of_cmp}
use db.Storage.Run.{Rec, IsSorted, EntryState, absent, present, tombstone, find, put}
use db.Storage.Run.Laws.{
  put-lt, put-eq, put-gt, put-IsSorted, find-cons, find-nil, find_past, put-nil,
}
use db.Storage.SortedArray.{SortedArray, search, state, set_entry, del}
use db.Storage.SortedArray.Search.{rank, hit, binary_search_lem}

-- The array holds this sorted run, column by column.
pub record Holds (a : SortedArray) (rs : List Rec) : Type 0 where
  pub keys_eq : a.keys ≡ map (λ r. r.key) rs
  pub vals_eq : a.vals ≡ map (λ r. r.val) rs
  pub deleted_eq : a.deleted ≡ map (λ r. r.deleted) rs
  pub sorted : IsSorted rs

abbrev pub is_present : EntryState → Bool
is_present (present v) = true
is_present _ = false

pub search_lem :
    (a : SortedArray) (rs : List Rec) (k : Bytes) → Holds a rs → search a k ≡ (rank k rs, hit k rs)
unfolding search
search_lem a rs k h = rw h.keys_eq (binary_search_lem k rs h.sorted)

abbrev column_state : Bytes → List Rec → EntryState
column_state k rs =
    if not (hit k rs)
    then absent
    else if get_or (map (λ r. r.deleted) rs) (rank k rs) false
    then tombstone
    else present (get_or (map (λ r. r.val) rs) (rank k rs) [])

column_state-find : (k : Bytes) (rs : List Rec) → IsSorted rs → column_state k rs ≡ find k rs
unfolding rank hit
column_state-find k [] s = rw find-nil
column_state-find k (r ∷ rs) s = elim (Ordering-cases (cmp r.key k)) [
  | inl e ↦ ground (arith, find-cons k r rs, column_state-find k rs s.1)
  | inr (inl e) ↦ ground (arith, find-cons k r rs)
  | inr (inr e) ↦ ground (arith, find_past k r rs s e)
]

-- `state` reads the run.
pub state-find : (a : SortedArray) (rs : List Rec) (k : Bytes) → Holds a rs → state a k ≡ find k rs
unfolding state
state-find a rs k h =
    rw (search_lem a rs k h, h.vals_eq, h.deleted_eq) (column_state-find k rs h.sorted)

-- Where the key is there, `put` overwrites each column at the insertion point; the keys stay.
put-hit {ℓ} :
    {A : Type ℓ} (f : Rec → A) (n : Rec) (rs : List Rec)
    → hit n.key rs ≡ true
    → set (map f rs) (rank n.key rs) (f n) ≡ map f (put n rs)
unfolding rank hit
put-hit f n [] h = cc
put-hit f n (r ∷ rs) h = elim (Ordering-cases (cmp r.key n.key)) [
  | inl e ↦ rw (put-lt n r rs e) (ground (arith, put-hit f n rs))
  | inr (inl e) ↦ rw (put-eq n r rs e) (ground arith)
  | inr (inr e) ↦ ground arith
]

keys_put-hit :
    (n : Rec) (rs : List Rec)
    → hit n.key rs ≡ true
    → map (λ r. r.key) rs ≡ map (λ r. r.key) (put n rs)
unfolding rank hit
keys_put-hit n [] h = cc
keys_put-hit n (r ∷ rs) h = elim (Ordering-cases (cmp r.key n.key)) [
  | inl e ↦ rw (put-lt n r rs e) (ground (arith, keys_put-hit n rs))
  | inr (inl e) ↦ rw (put-eq n r rs e) (ground (arith, eq_of_cmp r.key n.key))
  | inr (inr e) ↦ ground arith
]

-- Where it is not, `put` inserts into each column there.
put-miss {ℓ} :
    {A : Type ℓ} (f : Rec → A) (n : Rec) (rs : List Rec)
    → hit n.key rs ≡ false
    → insert_at (map f rs) (rank n.key rs) (f n) ≡ map f (put n rs)
unfolding rank hit
put-miss f n [] h = rw put-nil
put-miss f n (r ∷ rs) h = elim (Ordering-cases (cmp r.key n.key)) [
  | inl e ↦ rw (put-lt n r rs e) (ground (arith, put-miss f n rs))
  | inr (inl e) ↦ ground arith
  | inr (inr e) ↦ rw (put-gt n r rs e) (ground arith)
]

module _ (a : SortedArray) (rs : List Rec) (h : Holds a rs) (n : Rec) where
  overwrite-Holds :
      hit n.key rs ≡ true
      → Holds
          (record a {
            vals = set a.vals (rank n.key rs) n.val;
            deleted = set a.deleted (rank n.key rs) n.deleted;
          })
          (put n rs)
  overwrite-Holds e = record {
    keys_eq = h.keys_eq ∙ keys_put-hit n rs e;
    vals_eq = rw h.vals_eq (put-hit (λ r. r.val) n rs e);
    deleted_eq = rw h.deleted_eq (put-hit (λ r. r.deleted) n rs e);
    sorted = put-IsSorted n rs h.sorted;
  }

  insert-Holds :
      hit n.key rs ≡ false
      → Holds
          (record {
            keys = insert_at a.keys (rank n.key rs) n.key;
            vals = insert_at a.vals (rank n.key rs) n.val;
            deleted = insert_at a.deleted (rank n.key rs) n.deleted;
          })
          (put n rs)
  insert-Holds e = record {
    keys_eq = rw h.keys_eq (put-miss (λ r. r.key) n rs e);
    vals_eq = rw h.vals_eq (put-miss (λ r. r.val) n rs e);
    deleted_eq = rw h.deleted_eq (put-miss (λ r. r.deleted) n rs e);
    sorted = put-IsSorted n rs h.sorted;
  }

module _ (a : SortedArray) (rs : List Rec) (k : Bytes) (h : Holds a rs) where
  -- `Set` is `put` of a live record.
  pub set_entry-Holds :
      (v : Bytes)
      → Holds (set_entry a k v).0 (put (record { key = k; val = v; deleted = false }) rs)
  unfolding set_entry
  set_entry-Holds v =
      let n : Rec = record { key = k; val = v; deleted = false } in
      rw (search_lem a rs k h) (elim (Bool-cases (hit k rs)) [
        | inl e ↦ rw e (overwrite-Holds a rs h n e)
        | inr e ↦ rw e (insert-Holds a rs h n e)
      ])

  -- `updated` tells whether the key was live.
  pub set_entry_updated : (v : Bytes) → (set_entry a k v).1 ≡ is_present (find k rs)
  unfolding set_entry
  set_entry_updated v =
      rw (search_lem a rs k h, h.deleted_eq) (ground (arith, column_state-find k rs h.sorted))

  -- `Del` is `put` of a tombstone.
  pub del-Holds : Holds (del a k) (put (record { key = k; val = []; deleted = true }) rs)
  unfolding del
  del-Holds =
      let n : Rec = record { key = k; val = []; deleted = true } in
      rw (search_lem a rs k h) (elim (Bool-cases (hit k rs)) [
        | inl e ↦ rw e (overwrite-Holds a rs h n e)
        | inr e ↦ rw e (insert-Holds a rs h n e)
      ])
