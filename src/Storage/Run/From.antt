-- ===== src/Storage/Run/From.antt =====
-- The part of a run from a key on: sorted, and what it says of a key.
use db.Prelude.{
  ◌≤◌, ◌≡◌, List, [], ◌∷◌, arith, Bytes, All, length, map, if◌then◌else◌, inl, inr, Bool-cases,
}
use db.Bytes.Order.{cmp, ◌≺◌, is_lt, eq_of_cmp}
use db.Storage.Run.{Rec, IsSorted, absent, find, from}
use db.Storage.Run.Laws.{find-cons, find-nil}

pub All-from : (P : Rec → Type 0) (k : Bytes) (rs : List Rec) → All P rs → All P (from k rs)
unfolding from
All-from P k [] h = tt
All-from P k (r ∷ rs) h = elim (Bool-cases (is_lt (cmp r.key k))) [
  | inl e ↦ rw e (All-from P k rs h.1)
  | inr e ↦ rw e (h.0, All-from P k rs h.1)
]

pub from-IsSorted : (k : Bytes) (rs : List Rec) → IsSorted rs → IsSorted (from k rs)
unfolding from
from-IsSorted k [] s = tt
from-IsSorted k (r ∷ rs) s = elim (Bool-cases (is_lt (cmp r.key k))) [
  | inl e ↦ rw e (from-IsSorted k rs s.1)
  | inr e ↦ rw e (All-from (λ q. r.key ≺ q.key) k rs s.0, from-IsSorted k rs s.1)
]

pub from-All-IsSorted :
    (k : Bytes) (runs : List (List Rec)) → All IsSorted runs → All IsSorted (map (from k) runs)
from-All-IsSorted k [] s = tt
from-All-IsSorted k (rs ∷ runs) s = (from-IsSorted k rs s.0, from-All-IsSorted k runs s.1)

-- A key before k is not there, and any other is as in the run.
pub find-from :
    (k j : Bytes) (rs : List Rec)
    → find j (from k rs) ≡ (if is_lt (cmp j k) then absent else find j rs)
unfolding from
find-from k j [] = rw (find-nil j) (ground arith)
find-from k j (r ∷ rs) =
    ground (arith, find-cons j r rs, find-cons j r (from k rs), find-from k j rs, eq_of_cmp r.key j)

pub length-from : (k : Bytes) (rs : List Rec) → length (from k rs) ≤ length rs
unfolding from
length-from k [] = omega arith
length-from k (r ∷ rs) = ground (arith, length-from k rs)
