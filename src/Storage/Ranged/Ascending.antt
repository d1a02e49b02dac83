-- ===== src/Storage/Ranged/Ascending.antt =====
-- An ascending range scan emits the keys between its bounds.
use db.Prelude.{
  ℕ, ◌<◌, ◌≡◌, refl, sym, ◌∙◌, ap, true, false, ◌||◌, List, [], ◌∷◌, some, arith, Bytes, All,
  length, ◌≤◌, if◌then◌else◌, inl, inr, Bool-cases,
}
use db.Bytes.Order.{cmp, ◌≺◌, is_lt, is_eq, cmp_refl, lt_trans, lt_of_gt, cmp-flip, eq_of_cmp}
use db.Storage.Run.{Rec, IsSorted, absent, present, find}
use db.Storage.Run.Laws.{find-cons, find-nil, find_past}
use db.Storage.Cursor.{Cursor, Emits}
use db.Storage.Merge.{MergedIter, is_gt}
use db.Storage.Merge.Reference.{total}
use db.Storage.Kv.{Kv, missing, get}
use db.Storage.Kv.Lookup.{IsValid, answer}
use db.Storage.Levels.{Level, seek, kv_cursor}
use db.Storage.Levels.Seek.{seek-get}
use db.Storage.Ranged.{RangedIter, valid, next, ranged_cursor, fix_up, range}

-- The records up to the first key behind stop.
abbrev pub up_to : Bytes → List Rec → List Rec
up_to stop [] = []
up_to stop (r ∷ rs) = if is_gt (cmp r.key stop) then [] else r ∷ up_to stop rs

pub length-up_to : (stop : Bytes) (rs : List Rec) → length (up_to stop rs) ≤ length rs
length-up_to stop [] = omega arith
length-up_to stop (r ∷ rs) = ground (arith, length-up_to stop rs)

All-up_to : (P : Rec → Type 0) (stop : Bytes) (rs : List Rec) → All P rs → All P (up_to stop rs)
All-up_to P stop [] h = tt
All-up_to P stop (r ∷ rs) h = elim (Bool-cases (is_gt (cmp r.key stop))) [
  | inl e ↦ rw e tt
  | inr e ↦ rw e (h.0, All-up_to P stop rs h.1)
]

up_to-IsSorted : (stop : Bytes) (rs : List Rec) → IsSorted rs → IsSorted (up_to stop rs)
up_to-IsSorted stop [] s = tt
up_to-IsSorted stop (r ∷ rs) s = elim (Bool-cases (is_gt (cmp r.key stop))) [
  | inl e ↦ rw e tt
  | inr e ↦ rw e (All-up_to (λ q. r.key ≺ q.key) stop rs s.0, up_to-IsSorted stop rs s.1)
]

find-up_to :
    (stop j : Bytes) (rs : List Rec)
    → IsSorted rs
    → find j (up_to stop rs) ≡ (if is_gt (cmp j stop) then absent else find j rs)
find-up_to stop j [] s = rw (find-nil j) (ground arith)
find-up_to stop j (r ∷ rs) s = elim (Bool-cases (is_gt (cmp r.key stop))) [
  | inl e ↦
      rw (e, find-nil j)
        (ground (
          arith,
          cmp-flip j r.key,
          lt_of_gt r.key stop,
          cmp-flip j stop,
          eq_of_cmp j stop,
          lt_trans j stop r.key,
          find_past j r rs s,
        ))
  | inr e ↦
      rw (e, find-cons j r rs, find-cons j r (up_to stop rs))
        (ground (arith, eq_of_cmp r.key j, find-up_to stop j rs s.1))
]

module _ {I : Type 0} (c : Cursor I) (stop : Bytes) where
  abbrev pub upward : I → RangedIter I
  upward it = record { iter = it; stop = stop; desc = false }

  upward_done : (it : I) → c.valid it ≡ false → valid c (upward it) ≡ false
  unfolding valid
  upward_done it v = ground (arith, v)

  upward_behind :
      (it : I) (k : Bytes) → c.key it ≡ k → is_gt (cmp k stop) ≡ true → valid c (upward it) ≡ false
  unfolding valid
  upward_behind it k e b = ground (arith, e, b)

  upward_within :
      (it : I) (k : Bytes)
      → c.valid it ≡ true
      → c.key it ≡ k
      → is_gt (cmp k stop) ≡ false
      → valid c (upward it) ≡ true
  unfolding valid
  upward_within it k v e b = ground (arith, v, e, b)

  upward_next :
      (it it' : I)
      → valid c (upward it) ≡ true
      → c.next it ≡ some it'
      → next c (upward it) ≡ some (upward it')
  unfolding next
  upward_next it it' v e = ground (arith, v, e)

  -- Over a cursor that emits a list, the ascending range emits the list up to stop.
  pub Emits-upward :
      (it : I) (rs : List Rec) → Emits c it rs → Emits (ranged_cursor c) (upward it) (up_to stop rs)
  Emits-upward it [] v = upward_done it v
  Emits-upward it (r ∷ rs) (v, cur, it', e, h) =
      let same : c.key it ≡ r.key = ap (λ (x : Rec). x.key) cur in
      elim (Bool-cases (is_gt (cmp r.key stop))) [
        | inl b ↦ rw b (upward_behind it r.key same b)
        | inr b ↦
            let ok = upward_within it r.key v same b in
            rw b (ok, cur, upward it', upward_next it it' ok e, Emits-upward it' rs h)
      ]

-- A record of the range: no tombstone, and its key not before start and not behind stop.
abbrev pub Within : Bytes → Bytes → Rec → Type 0
Within start stop r =
    (r.deleted ≡ false) × (is_lt (cmp r.key start) ≡ false) × (is_gt (cmp r.key stop) ≡ false)

All-Within :
    (start stop : Bytes) (rs : List Rec)
    → All (λ r. r.deleted ≡ false) rs
    → All (λ r. is_lt (cmp r.key start) ≡ false) rs
    → All (Within start stop) (up_to stop rs)
All-Within start stop [] d s = tt
All-Within start stop (r ∷ rs) (d, ds) (s, ss) = elim (Bool-cases (is_gt (cmp r.key stop))) [
  | inl e ↦ rw e tt
  | inr e ↦ rw e ((d, s, e), All-Within start stop rs ds ss)
]

first_not_before :
    (start : Bytes) (r : Rec) (rs : List Rec)
    → r.deleted ≡ false
    → (is_lt (cmp r.key start) ≡ true → answer (find r.key (r ∷ rs)) ≡ missing)
    → is_lt (cmp r.key start) ≡ false
first_not_before start r rs d h = elim (Bool-cases (is_lt (cmp r.key start))) [
  | inl k ↦
      let known : find r.key (r ∷ rs) ≡ present r.val =
        ground (arith, find-cons r.key r rs, cmp_refl r.key, d) in
      let none_found : answer (present r.val) ≡ missing = ap answer (sym known) ∙ h k in absurd cc
  | inr k ↦ k
]

-- A list without tombstones that knows no key before start holds none.
All-not_before :
    (start : Bytes) (rs : List Rec)
    → All (λ r. r.deleted ≡ false) rs
    → ((j : Bytes) → is_lt (cmp j start) ≡ true → answer (find j rs) ≡ missing)
    → All (λ r. is_lt (cmp r.key start) ≡ false) rs
All-not_before start [] d h = tt
All-not_before start (r ∷ rs) (d, ds) h =
    let first = first_not_before start r rs d (h r.key) in
    (
      first,
      All-not_before start rs ds (λ j k. elim (Bool-cases (is_eq (cmp r.key j))) [
        | inl e ↦
            let same : r.key ≡ j = eq_of_cmp r.key j (ground arith) in
            let wrong : is_lt (cmp r.key start) ≡ true = rw same k in absurd cc
        | inr e ↦
            let later : find j (r ∷ rs) ≡ find j rs = ground (arith, find-cons j r rs) in
            ap answer (sym later) ∙ h j k
      ]),
    )

pub range-upward :
    (fuel : ℕ) (kv : Kv) (start stop : Bytes) (it : MergedIter Level)
    → seek fuel kv start ≡ some it
    → range fuel kv start stop false ≡ some (upward (kv_cursor fuel) stop it)
unfolding range fix_up
range-upward fuel kv start stop it e = ground (arith, e)

-- In a valid engine, with fuel for more than the records of all levels, an ascending `Range` succeeds,
-- and its cursor emits, without an error, a sorted list of records that are no tombstones and whose
-- keys are from start to stop, both included, and the list has for every key in that range the value
-- that `Get` returns.
pub range-get :
    (kv : Kv) (rs : List Rec) (runs : List (List Rec)) (fuel : ℕ) (start stop : Bytes)
    → IsValid kv rs runs
    → total (rs ∷ runs) < fuel
    → (it : RangedIter (MergedIter Level)) × (emitted : List Rec) × (range fuel kv start stop false
        ≡ some it)
      × Emits (ranged_cursor (kv_cursor fuel)) it emitted
      × IsSorted emitted
      × All (Within start stop) emitted
      × ((j : Bytes)
          → answer (find j emitted)
            ≡ (if is_lt (cmp j start) || is_gt (cmp j stop) then missing else get kv j))
range-get kv rs runs fuel start stop v enough =
    let (it, emitted, e, h, s, k, look) = seek-get kv rs runs v fuel start enough in
    (
      upward (kv_cursor fuel) stop it,
      up_to stop emitted,
      range-upward fuel kv start stop it e,
      Emits-upward (kv_cursor fuel) stop it emitted h,
      up_to-IsSorted stop emitted s,
      All-Within start stop emitted k
          (All-not_before start emitted k (λ j b. look j ∙ (rw b refl))),
      λ j. ranged_answer j emitted s (look j),
    )
  where
    ranged_answer :
        (j : Bytes) (qs : List Rec)
        → IsSorted qs
        → answer (find j qs) ≡ (if is_lt (cmp j start) then missing else get kv j)
        → answer (find j (up_to stop qs))
          ≡ (if is_lt (cmp j start) || is_gt (cmp j stop) then missing else get kv j)
    ranged_answer j qs s l = ground (arith, find-up_to stop j qs s)
