-- ===== src/Storage/SortedArray/Iter.antt =====
-- The cursor of the MemTable, and that it emits the run from the sought key on. The position is
-- an integer: it may stand one past either end.
use db.Prelude.{
  ℕ, zero, suc, ◌+◌, ◌≤◌, ◌<◌, ◌≡◌, refl, sym, ap, ◌∙◌, Bool, false, List, [], ◌∷◌, arith, Bytes,
  All, length, get_or, drop, ltb, if◌then◌else◌, inl, inr, Bool-cases, drop-get_or, drop_past,
  length-map, get_or-map,
}
use db.Prelude.Int.{ℤ, pos, negsuc, ◌+ℤ◌, ◌-ℤ◌, ltb_ℤ}
use db.Bytes.Order.{cmp, is_lt, lt_trans, ◌≺◌}
use db.Storage.Run.{Rec, IsSorted, from}
use db.Storage.SortedArray.{SortedArray, search}
use db.Storage.SortedArray.Search.{rank}
use db.Storage.SortedArray.Refines.{Holds, search_lem}

pub record SortedArrayIter : Type 0 where
  pub a : SortedArray
  pub position : ℤ

unfoldable pub iter : SortedArray → SortedArrayIter
iter a = record { a = a; position = pos 0 }

unfoldable pub seek : SortedArray → Bytes → SortedArrayIter
seek a key = record { a = a; position = pos (search a key).0 }

-- An index that is in range; elsewhere Go panics, and here it is 0.
abbrev index : ℤ → ℕ
index (pos i) = i
index (negsuc i) = 0

-- 0 <= pos && pos < len(keys)
abbrev in_range : ℤ → ℕ → Bool
in_range (pos i) n = ltb i n
in_range (negsuc i) n = false

unfoldable pub valid : SortedArrayIter → Bool
valid it = in_range it.position (length it.a.keys)

unfoldable pub key : SortedArrayIter → Bytes
key it = get_or it.a.keys (index it.position) []

unfoldable pub val : SortedArrayIter → Bytes
val it = get_or it.a.vals (index it.position) []

unfoldable pub is_deleted : SortedArrayIter → Bool
is_deleted it = get_or it.a.deleted (index it.position) false

unfoldable pub next : SortedArrayIter → SortedArrayIter
next it =
    if ltb_ℤ it.position (pos (length it.a.keys))
    then record it { position = it.position +ℤ pos 1 }
    else it

unfoldable pub prev : SortedArrayIter → SortedArrayIter
prev it = if ltb_ℤ it.position (pos 0) then it else record it { position = it.position -ℤ pos 1 }

-- for ; it.Valid(); it.Next() { emit }
unfoldable pub drain : ℕ → SortedArrayIter → List Rec
drain zero it = []
drain (suc fuel) it =
    let rest = drain fuel (next it) in
    if valid it then (record { key = key it; val = val it; deleted = is_deleted it }) ∷ rest else []

-- From a valid position or from the end `Next` undoes `Prev`, also where `Prev` stepped out.
pub next-prev :
    (it : SortedArrayIter) (i : ℕ)
    → it.position ≡ pos i
    → i ≤ length it.a.keys
    → next (prev it) ≡ it
unfolding next prev ◌+ℤ◌ ◌-ℤ◌
next-prev it i e h = ground arith

from_All :
    (b k : Bytes) (rs : List Rec)
    → All (λ s. b ≺ s.key) rs
    → is_lt (cmp b k) ≡ false
    → from k rs ≡ rs
unfolding from
from_All b k [] a e = refl
from_All b k (r ∷ rs) a e = ground (arith, lt_trans b r.key k, from_All b k rs)

pub drop-rank : (k : Bytes) (rs : List Rec) → IsSorted rs → drop (rank k rs) rs ≡ from k rs
unfolding rank from
drop-rank k [] s = refl
drop-rank k (r ∷ rs) s = elim (Bool-cases (is_lt (cmp r.key k))) [
  | inl e ↦ rw e (drop-rank k rs s.1)
  | inr e ↦ rw e (ap (◌∷◌ r) (sym (from_All r.key k rs s.0 e)))
]

abbrev pub none_rec : Rec
none_rec = record { key = []; val = []; deleted = false }

module _ (a : SortedArray) (rs : List Rec) (h : Holds a rs) where
  pub length_eq : length a.keys ≡ length rs
  length_eq = rw h.keys_eq (length-map rs (λ r. r.key))

  pub row :
      (i : ℕ)
      → i < length rs
      → ◌≡◌ {A = Rec}
          (record {
            key = get_or a.keys i [];
            val = get_or a.vals i [];
            deleted = get_or a.deleted i false;
          })
          (get_or rs i none_rec)
  row i p =
      rw (h.keys_eq, h.vals_eq, h.deleted_eq)
        (ground (
          arith,
          get_or-map (λ (r : Rec). r.key) rs i none_rec [] p,
          get_or-map (λ (r : Rec). r.val) rs i none_rec [] p,
          get_or-map (λ (r : Rec). r.deleted) rs i none_rec false p,
        ))

  pub next_pos :
      (i : ℕ)
      → i < length rs
      → next (record { a = a; position = pos i }) ≡ record { a = a; position = pos (suc i) }
  unfolding next ◌+ℤ◌
  next_pos i p = ground (arith, length_eq)

  drain-drop :
      (fuel i : ℕ)
      → length rs ≤ fuel + i
      → drain fuel (record { a = a; position = pos i }) ≡ drop i rs
  unfolding drain valid key val is_deleted
  drain-drop zero i p = sym (drop_past rs i (omega arith))
  drain-drop (suc fuel) i p = elim (Bool-cases (ltb i (length rs))) [
    | inl e ↦
        rw (length_eq, e, row i (ground arith), next_pos i (ground arith))
          (rw (drop-get_or rs i none_rec (ground arith))
            (ap (◌∷◌ (get_or rs i none_rec)) (drain-drop fuel (suc i) (omega arith))))
    | inr e ↦ rw (length_eq, e) (sym (drop_past rs i (ground arith)))
  ]

  -- `Seek` and `Next` emit the records of the run from the key on, in order; the size is fuel enough.
  pub drain-seek : (k : Bytes) → drain (length a.keys) (seek a k) ≡ from k rs
  unfolding seek
  drain-seek k =
      rw (search_lem a rs k h, length_eq)
        (drain-drop (length rs) (rank k rs) (omega arith) ∙ drop-rank k rs h.sorted)

  -- `Iter` and `Next` emit the whole run.
  pub drain-iter : drain (length a.keys) (iter a) ≡ rs
  unfolding iter
  drain-iter = rw length_eq (drain-drop (length rs) 0 (omega arith))
