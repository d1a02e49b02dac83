-- ===== src/Storage/Filter/Find.antt =====
-- A list without its tombstones: sorted, and what a lookup in it answers.
use db.Prelude.{
  ◌≡◌, sym, ap, subst, Bool, true, false, List, [], ◌∷◌, arith, Bytes, All, if◌then◌else◌, inl, inr,
  Bool-cases,
}
use db.Bytes.Order.{◌≺◌, eq_of_cmp}
use db.Storage.Run.{Rec, IsSorted, EntryState, absent, present, tombstone, state_of, find}
use db.Storage.Run.Laws.{find-cons, find-nil, find_below}
use db.Storage.Filter.Live.{live}

-- The two cases of a record at the front.
live-deleted : (r : Rec) (rs : List Rec) → r.deleted ≡ true → live (r ∷ rs) ≡ live rs
live-deleted r rs d = ap (λ (b : Bool). if b then live rs else r ∷ live rs) d

live-kept : (r : Rec) (rs : List Rec) → r.deleted ≡ false → live (r ∷ rs) ≡ r ∷ live rs
live-kept r rs d = ap (λ (b : Bool). if b then live rs else r ∷ live rs) d

pub All-live : (P : Rec → Type 0) (rs : List Rec) → All P rs → All P (live rs)
All-live P [] h = tt
All-live P (r ∷ rs) h = elim (Bool-cases r.deleted) [
  | inl d ↦ subst (All P) (sym (live-deleted r rs d)) (All-live P rs h.1)
  | inr d ↦ subst (All P) (sym (live-kept r rs d)) (h.0, All-live P rs h.1)
]

pub live-IsSorted : (rs : List Rec) → IsSorted rs → IsSorted (live rs)
live-IsSorted [] s = tt
live-IsSorted (r ∷ rs) s = elim (Bool-cases r.deleted) [
  | inl d ↦ subst IsSorted (sym (live-deleted r rs d)) (live-IsSorted rs s.1)
  | inr d ↦
      subst IsSorted (sym (live-kept r rs d))
        (All-live (λ q. r.key ≺ q.key) rs s.0, live-IsSorted rs s.1)
]

pub live-kept-All : (rs : List Rec) → All (λ r. r.deleted ≡ false) (live rs)
live-kept-All [] = tt
live-kept-All (r ∷ rs) = elim (Bool-cases r.deleted) [
  | inl d ↦ subst (All (λ q. q.deleted ≡ false)) (sym (live-deleted r rs d)) (live-kept-All rs)
  | inr d ↦ subst (All (λ q. q.deleted ≡ false)) (sym (live-kept r rs d)) (d, live-kept-All rs)
]

-- Without the difference between a tombstone and nothing.
abbrev pub seen : EntryState → EntryState
seen (present v) = present v
seen _ = absent

state-deleted : (r : Rec) → r.deleted ≡ true → state_of r ≡ tombstone
state-deleted r d = ground (arith, d)

state-kept : (r : Rec) → r.deleted ≡ false → state_of r ≡ present r.val
state-kept r d = ground (arith, d)

-- A lookup finds the values of the sorted list, and no tombstone.
pub find-live : (j : Bytes) (rs : List Rec) → IsSorted rs → find j (live rs) ≡ seen (find j rs)
find-live j [] s = rw (find-nil j)
find-live j (r ∷ rs) s = elim (Bool-cases r.deleted) [
  | inl d ↦
      rw (live-deleted r rs d, find-cons j r rs, state-deleted r d)
        (ground (arith, find-live j rs s.1, eq_of_cmp r.key j, find_below r.key rs s.0))
  | inr d ↦
      rw (live-kept r rs d, find-cons j r rs, find-cons j r (live rs), state-kept r d)
        (ground (arith, find-live j rs s.1))
]
