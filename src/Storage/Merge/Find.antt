-- ===== src/Storage/Merge/Find.antt =====
-- The merge is sorted, and a lookup in it finds what the newest run that knows the key says.
use db.Prelude.{
  ℕ, zero, suc, ◌≤◌, ◌<◌, ◌≡◌, ◌≢◌, refl, sym, ap, ◌∙◌, subst, List, [], ◌∷◌, none, some, arith,
  Bytes, All, All-imp, length, map, eq, ◌⊎◌, inl, inr, Bool-cases, Option-cases,
}
use db.Bytes.Order.{cmp, ◌≺◌, is_eq, cmp_refl, eq_of_cmp, lt_trans}
use db.Storage.Run.{Rec, IsSorted, absent, state_of, find}
use db.Storage.Run.Laws.{find-cons, find-nil, find_below}
use db.Storage.Merge.Reference.{least, skip, merge, total, first_hit}
use db.Storage.Merge.Least.{
  NotBefore, least-none, least-bound, skip-IsSorted, skip_behind, find-skip, length-skip,
}

-- The head of the first run is emitted next, or a smaller one of the runs below.
pub least_cases :
    (q : Rec) (qs : List Rec) (runs : List (List Rec)) (r : Rec)
    → least ((q ∷ qs) ∷ runs) ≡ some r
    → (q ≡ r) ⊎ ((least runs ≡ some r) × (r.key ≺ q.key))
unfolding least
least_cases q qs runs r e = ground arith

pub least-nil : (runs : List (List Rec)) → least ([] ∷ runs) ≡ least runs
unfolding least
least-nil runs = refl

pub skip-head : (k : Bytes) (r : Rec) (rs : List Rec) → r.key ≡ k → skip k (r ∷ rs) ≡ rs
unfolding skip
skip-head k r rs e = ground (arith, cmp_refl k)

pub merge_done : (fuel : ℕ) (runs : List (List Rec)) → least runs ≡ none → merge fuel runs ≡ []
unfolding merge
merge_done zero runs e = refl
merge_done (suc fuel) runs e = ground (arith, e)

pub merge_emit :
    (fuel : ℕ) (runs : List (List Rec)) (r : Rec)
    → least runs ≡ some r
    → merge (suc fuel) runs ≡ r ∷ merge fuel (map (skip r.key) runs)
unfolding merge
merge_emit fuel runs r e = ground (arith, e)

find_least :
    (runs : List (List Rec)) (r : Rec)
    → All IsSorted runs
    → least runs ≡ some r
    → first_hit r.key runs ≡ state_of r
find_least [] r s e = unfold least in cc
find_least ([] ∷ runs) r s e =
    rw (find-nil r.key) (find_least runs r s.1 (sym (least-nil runs) ∙ e))
find_least ((q ∷ qs) ∷ runs) r s e = elim (least_cases q qs runs r e) [
  | inl h ↦ ground (arith, find-cons r.key q qs, cmp_refl r.key)
  | inr (later, h) ↦
      let above : All (λ s. r.key ≺ s.key) (q ∷ qs) =
        (h, All-imp (λ x. lt_trans r.key q.key x.key h) qs s.0.0) in
      ground (arith, find_below r.key (q ∷ qs) above, find_least runs r s.1 later)
]

total-skip_le : (k : Bytes) (runs : List (List Rec)) → total (map (skip k) runs) ≤ total runs
total-skip_le k [] = omega arith
total-skip_le k (rs ∷ runs) = omega (arith, length-skip k rs, total-skip_le k runs)

pub total-skip_lt :
    (runs : List (List Rec)) (r : Rec)
    → least runs ≡ some r
    → total (map (skip r.key) runs) < total runs
total-skip_lt [] r e = unfold least in cc
total-skip_lt ([] ∷ runs) r e =
    omega (arith, length-skip r.key [], total-skip_lt runs r (sym (least-nil runs) ∙ e))
total-skip_lt ((q ∷ qs) ∷ runs) r e = elim (least_cases q qs runs r e) [
  | inl h ↦
      rw (skip-head r.key q qs (ap (λ (x : Rec). x.key) h))
        (omega (arith, total-skip_le r.key runs))
  | inr (later, h) ↦ omega (arith, length-skip r.key (q ∷ qs), total-skip_lt runs r later)
]

first_hit-skip :
    (k j : Bytes) (runs : List (List Rec))
    → cmp k j ≢ eq
    → first_hit j (map (skip k) runs) ≡ first_hit j runs
first_hit-skip k j [] h = refl
first_hit-skip k j (rs ∷ runs) h = rw (find-skip k j rs h, first_hit-skip k j runs h)

skip-IsSorted-All :
    (k : Bytes) (runs : List (List Rec)) → All IsSorted runs → All IsSorted (map (skip k) runs)
skip-IsSorted-All k [] s = tt
skip-IsSorted-All k (rs ∷ runs) s = (skip-IsSorted k rs s.0, skip-IsSorted-All k runs s.1)

skip_behind-All :
    (k : Bytes) (runs : List (List Rec))
    → All IsSorted runs
    → All (All (NotBefore k)) runs
    → All (All (λ s. k ≺ s.key)) (map (skip k) runs)
skip_behind-All k [] s b = tt
skip_behind-All k (rs ∷ runs) s b = (skip_behind k rs s.0 b.0, skip_behind-All k runs s.1 b.1)

find_empty :
    (k : Bytes) (runs : List (List Rec)) → All (λ rs. rs ≡ []) runs → first_hit k runs ≡ absent
find_empty k [] e = refl
find_empty k (rs ∷ runs) e = rw (e.0, find-nil k, find_empty k runs e.1)

-- A lookup in the merge finds what the newest run that knows the key says, a tombstone included.
pub find-merge :
    (fuel : ℕ) (runs : List (List Rec)) (k : Bytes)
    → All IsSorted runs
    → total runs ≤ fuel
    → find k (merge fuel runs) ≡ first_hit k runs
find-merge zero runs k s f = elim (Option-cases (least runs)) [
  | inl n ↦ rw (merge_done 0 runs n) (find-nil k ∙ sym (find_empty k runs (least-none runs n)))
  | inr (r, e) ↦ absurd (omega (arith, total-skip_lt runs r e))
]
find-merge (suc fuel) runs k s f = elim (Option-cases (least runs)) [
  | inl n ↦
      rw (merge_done (suc fuel) runs n) (find-nil k ∙ sym (find_empty k runs (least-none runs n)))
  | inr (r, e) ↦
      let runs' = map (skip r.key) runs in
      let less = total-skip_lt runs r e in
      rw (merge_emit fuel runs r e) (
        ground (
          arith,
          find-cons k r (merge fuel runs'),
          find-merge fuel runs' k (skip-IsSorted-All r.key runs s) (omega arith),
          first_hit-skip r.key k runs,
          eq_of_cmp r.key k,
          find_least runs r s e,
        ))
]

-- Everything that holds of the records of the runs holds of those of the merge.
All-least :
    (P : Rec → Type 0) (runs : List (List Rec)) (r : Rec)
    → least runs ≡ some r
    → All (All P) runs
    → P r
All-least P [] r e h = unfold least in cc
All-least P ([] ∷ runs) r e h = All-least P runs r (sym (least-nil runs) ∙ e) h.1
All-least P ((q ∷ qs) ∷ runs) r e h = elim (least_cases q qs runs r e) [
  | inl p ↦ subst P p h.0.0
  | inr (later, _) ↦ All-least P runs r later h.1
]

All-skip : (P : Rec → Type 0) (k : Bytes) (rs : List Rec) → All P rs → All P (skip k rs)
unfolding skip
All-skip P k [] h = tt
All-skip P k (r ∷ rs) h = elim (Bool-cases (is_eq (cmp r.key k))) [
  | inl e ↦ rw e h.1
  | inr e ↦ rw e h
]

All-skip-All :
    (P : Rec → Type 0) (k : Bytes) (runs : List (List Rec))
    → All (All P) runs
    → All (All P) (map (skip k) runs)
All-skip-All P k [] h = tt
All-skip-All P k (rs ∷ runs) h = (All-skip P k rs h.0, All-skip-All P k runs h.1)

pub All-merge :
    (P : Rec → Type 0) (fuel : ℕ) (runs : List (List Rec))
    → All (All P) runs
    → All P (merge fuel runs)
All-merge P zero runs h = unfold merge in tt
All-merge P (suc fuel) runs h = elim (Option-cases (least runs)) [
  | inl n ↦ rw (merge_done (suc fuel) runs n) tt
  | inr (r, e) ↦ rw (merge_emit fuel runs r e) (
    All-least P runs r e h,
    All-merge P fuel (map (skip r.key) runs) (All-skip-All P r.key runs h),
  )
]

-- The merge of sorted runs is sorted: no key is emitted twice.
pub merge-IsSorted :
    (fuel : ℕ) (runs : List (List Rec)) → All IsSorted runs → IsSorted (merge fuel runs)
merge-IsSorted zero runs s = unfold merge in tt
merge-IsSorted (suc fuel) runs s = elim (Option-cases (least runs)) [
  | inl n ↦ rw (merge_done (suc fuel) runs n) tt
  | inr (r, e) ↦
      let runs' = map (skip r.key) runs in
      rw (merge_emit fuel runs r e) (
        All-merge (λ s. r.key ≺ s.key) fuel runs'
            (skip_behind-All r.key runs s (least-bound runs r s e)),
        merge-IsSorted fuel runs' (skip-IsSorted-All r.key runs s),
      )
]

pub length-merge : (fuel : ℕ) (runs : List (List Rec)) → length (merge fuel runs) ≤ fuel
length-merge zero runs = unfold merge in omega arith
length-merge (suc fuel) runs = elim (Option-cases (least runs)) [
  | inl n ↦ rw (merge_done (suc fuel) runs n) (omega arith)
  | inr (r, e) ↦
      rw (merge_emit fuel runs r e) (omega (arith, length-merge fuel (map (skip r.key) runs)))
]
