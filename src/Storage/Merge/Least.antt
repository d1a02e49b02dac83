-- ===== src/Storage/Merge/Least.antt =====
-- The record that a merge emits next: its bounds, and what passing it leaves in each run.
use db.Prelude.{
  ◌≤◌, ◌≡◌, ◌≢◌, refl, subst, false, List, [], ◌∷◌, Option, none, some, arith, Bytes, All, All-imp,
  length, eq, inl, inr, Bool-cases, Ordering-cases,
}
use db.Bytes.Order.{
  cmp, ◌≺◌, is_lt, eq_of_cmp, lt_of_gt, lt_trans, not_lt_refl, not_lt_trans, not_lt_of_lt,
}
use db.Storage.Run.{Rec, IsSorted, find}
use db.Storage.Run.Laws.{find-cons}
use db.Storage.Merge.Reference.{pick, least, skip}

abbrev pub NotBefore : Bytes → Rec → Type 0
NotBefore k s = is_lt (cmp s.key k) ≡ false

pub least-none : (runs : List (List Rec)) → least runs ≡ none → All (λ rs. rs ≡ []) runs
unfolding least
least-none [] e = tt
least-none ([] ∷ runs) e = (refl, least-none runs e)
least-none ((r ∷ rs) ∷ runs) e = cc

abbrev Bounds : Option Rec → List (List Rec) → Type 0
Bounds none runs = All (λ rs. rs ≡ []) runs
Bounds (some r) runs = All (All (NotBefore r.key)) runs

weaken :
    (a b : Bytes) (rs : List Rec)
    → is_lt (cmp a b) ≡ false
    → All (NotBefore a) rs
    → All (NotBefore b) rs
weaken a b rs h = All-imp (λ x p. not_lt_trans x.key a b p h) rs

-- A sorted run stays at its head or after.
head_bound : (q : Rec) (qs : List Rec) → IsSorted (q ∷ qs) → All (NotBefore q.key) (q ∷ qs)
head_bound q qs s = (not_lt_refl q.key, All-imp (λ x. not_lt_of_lt q.key x.key) qs s.0)

pick_bound :
    (q : Rec) (o : Option Rec) (qs : List Rec) (runs : List (List Rec))
    → IsSorted (q ∷ qs)
    → Bounds o runs
    → All (All (NotBefore (pick q o).key)) ((q ∷ qs) ∷ runs)
pick_bound q none qs runs s b = (head_bound q qs s, All-imp (λ rs e. rw e tt) runs b)
pick_bound q (some r) qs runs s b = elim (Bool-cases (is_lt (cmp r.key q.key))) [
  | inl e ↦
      let chosen : r ≡ pick q (some r) = ground (arith, e) in
      subst (λ (p : Rec). All (All (NotBefore p.key)) ((q ∷ qs) ∷ runs)) chosen
        (
          weaken q.key r.key (q ∷ qs) (not_lt_of_lt r.key q.key (ground arith)) (head_bound q qs s),
          b,
        )
  | inr e ↦
      let chosen : q ≡ pick q (some r) = ground (arith, e) in
      subst (λ (p : Rec). All (All (NotBefore p.key)) ((q ∷ qs) ∷ runs)) chosen
        (head_bound q qs s, All-imp (λ rs. weaken r.key q.key rs e) runs b)
]

nil_Bounds : (o : Option Rec) (runs : List (List Rec)) → Bounds o runs → Bounds o ([] ∷ runs)
nil_Bounds none runs b = (refl, b)
nil_Bounds (some r) runs b = (tt, b)

least-Bounds : (runs : List (List Rec)) → All IsSorted runs → Bounds (least runs) runs
unfolding least
least-Bounds [] s = tt
least-Bounds ([] ∷ runs) s = nil_Bounds (least runs) runs (least-Bounds runs s.1)
least-Bounds ((q ∷ qs) ∷ runs) s = pick_bound q (least runs) qs runs s.0 (least-Bounds runs s.1)

-- The smallest head is a bound of every run.
pub least-bound :
    (runs : List (List Rec)) (r : Rec)
    → All IsSorted runs
    → least runs ≡ some r
    → All (All (NotBefore r.key)) runs
least-bound runs r s e = rw e at (least-Bounds runs s)

-- Passing the key k in a run that starts at k or after: the rest is sorted and behind k.
pub skip-IsSorted : (k : Bytes) (rs : List Rec) → IsSorted rs → IsSorted (skip k rs)
unfolding skip
skip-IsSorted k [] s = tt
skip-IsSorted k (r ∷ rs) s = ground arith

pub skip_behind :
    (k : Bytes) (rs : List Rec)
    → IsSorted rs
    → All (NotBefore k) rs
    → All (λ s. k ≺ s.key) (skip k rs)
unfolding skip
skip_behind k [] s b = tt
skip_behind k (r ∷ rs) s b = elim (Ordering-cases (cmp r.key k)) [
  | inl e ↦ absurd (ground (arith, e, b.0))
  | inr (inl e) ↦ rw e (All-imp (λ x h. rw (← eq_of_cmp r.key k e) h) rs s.0)
  | inr (inr e) ↦
      let h = lt_of_gt r.key k e in rw e (h, All-imp (λ x. lt_trans k r.key x.key h) rs s.0)
]

-- Other keys are found as before.
pub find-skip : (k j : Bytes) (rs : List Rec) → cmp k j ≢ eq → find j (skip k rs) ≡ find j rs
unfolding skip
find-skip k j [] h = refl
find-skip k j (r ∷ rs) h = ground (arith, find-cons j r rs, eq_of_cmp r.key k)

pub length-skip : (k : Bytes) (rs : List Rec) → length (skip k rs) ≤ length rs
unfolding skip
length-skip k [] = omega arith
length-skip k (r ∷ rs) = ground arith
