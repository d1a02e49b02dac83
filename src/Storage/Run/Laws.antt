-- ===== src/Storage/Run/Laws.antt =====
-- `put` keeps a run sorted, and `find` after `put` is the abstract map update.
use db.Prelude.{
  ◌≡◌, refl, List, [], ◌∷◌, arith, Bytes, All, All-imp, if◌then◌else◌, lt, eq, gt, inl, inr,
  Ordering-cases,
}
use db.Bytes.Order.{cmp, ◌≺◌, is_eq, cmp_refl, eq_of_cmp, cmp-flip, lt_of_gt, lt_trans}
use db.Storage.Run.{Rec, IsSorted, absent, state_of, find, put}

module _ (n r : Rec) (rs : List Rec) where
  pub put-lt : cmp r.key n.key ≡ lt → put n (r ∷ rs) ≡ r ∷ put n rs
  unfolding put
  put-lt e = ground arith

  pub put-eq : cmp r.key n.key ≡ eq → put n (r ∷ rs) ≡ n ∷ rs
  unfolding put
  put-eq e = ground arith

  pub put-gt : cmp r.key n.key ≡ gt → put n (r ∷ rs) ≡ n ∷ r ∷ rs
  unfolding put
  put-gt e = ground arith

pub find-cons :
    (k : Bytes) (r : Rec) (rs : List Rec)
    → find k (r ∷ rs) ≡ (if is_eq (cmp r.key k) then state_of r else find k rs)
unfolding find
find-cons k r rs = ground arith

All-put :
    (b : Bytes) (n : Rec) (rs : List Rec)
    → b ≺ n.key
    → All (λ s. b ≺ s.key) rs
    → All (λ s. b ≺ s.key) (put n rs)
unfolding put
All-put b n [] h a = (h, tt)
All-put b n (r ∷ rs) h a = ground (arith, All-put b n rs)

-- `put` keeps a run sorted.
pub put-IsSorted : (n : Rec) (rs : List Rec) → IsSorted rs → IsSorted (put n rs)
put-IsSorted n [] s = unfold put in (tt, tt)
put-IsSorted n (r ∷ rs) s = elim (Ordering-cases (cmp r.key n.key)) [
  | inl e ↦ rw (put-lt n r rs e) (All-put r.key n rs e s.0, put-IsSorted n rs s.1)
  | inr (inl e) ↦ rw (put-eq n r rs e) (rw (eq_of_cmp r.key n.key e) at s)
  | inr (inr e) ↦
      let h = lt_of_gt r.key n.key e in
      rw (put-gt n r rs e) ((h, All-imp (λ x. lt_trans n.key r.key x.key h) rs s.0), s)
]

-- A key below every key of a run is not in it.
pub find_below : (k : Bytes) (rs : List Rec) → All (λ s. k ≺ s.key) rs → find k rs ≡ absent
unfolding find
find_below k [] a = refl
find_below k (r ∷ rs) a = ground (arith, cmp-flip k r.key, find_below k rs)

-- A read after a write: the new state at its key, the old one elsewhere.
pub find-put :
    (n : Rec) (rs : List Rec) (k : Bytes)
    → find k (put n rs) ≡ (if is_eq (cmp n.key k) then state_of n else find k rs)
find-put n [] k = unfold find put in ground arith
find-put n (r ∷ rs) k = elim (Ordering-cases (cmp r.key n.key)) [
  | inl e ↦ rw (put-lt n r rs e) (
      ground (
        arith,
        find-cons k r (put n rs),
        find-cons k r rs,
        find-put n rs k,
        eq_of_cmp r.key k,
        eq_of_cmp n.key k,
        cmp_refl k,
      ))
  | inr (inl e) ↦
      rw (put-eq n r rs e)
        (ground (arith, find-cons k n rs, find-cons k r rs, eq_of_cmp r.key n.key e))
  | inr (inr e) ↦ rw (put-gt n r rs e) (find-cons k n (r ∷ rs))
]

-- In a sorted run nothing stands behind a greater key.
pub find_past :
    (k : Bytes) (r : Rec) (rs : List Rec)
    → IsSorted (r ∷ rs)
    → cmp r.key k ≡ gt
    → find k (r ∷ rs) ≡ absent
find_past k r rs s e =
    find_below k (r ∷ rs)
      (lt_of_gt r.key k e, All-imp (λ x. lt_trans k r.key x.key (lt_of_gt r.key k e)) rs s.0)

pub find-nil : (k : Bytes) → find k [] ≡ absent
unfolding find
find-nil k = refl

pub put-nil : (n : Rec) → put n [] ≡ n ∷ []
unfolding put
put-nil n = refl
