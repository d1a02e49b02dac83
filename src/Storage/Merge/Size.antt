-- ===== src/Storage/Merge/Size.antt =====
-- The bytes that a merge takes in a file.
use db.Prelude.{
  ℕ, zero, suc, ◌+◌, ◌≤◌, ◌≡◌, sym, ap, ◌∙◌, List, [], ◌∷◌, map, some, arith, inl, inr,
  Option-cases, length,
}
use db.Storage.Run.{Rec}
use db.Storage.Sstable.Disk.Read.{record_size}
use db.Storage.Sstable.Disk.Write.{data_size}
use db.Storage.Merge.Reference.{least, skip, merge}
use db.Storage.Merge.Find.{least_cases, least-nil, skip-head, merge_done, merge_emit}
use db.Storage.Filter.Live.{live}

abbrev pub all_data : List (List Rec) → ℕ
all_data [] = 0
all_data (rs ∷ runs) = data_size rs + all_data runs

data_size-skip : (k : List ℕ) (rs : List Rec) → data_size (skip k rs) ≤ data_size rs
unfolding skip
data_size-skip k [] = omega arith
data_size-skip k (r ∷ rs) = ground arith

all_data-skip_le :
    (k : List ℕ) (runs : List (List Rec)) → all_data (map (skip k) runs) ≤ all_data runs
all_data-skip_le k [] = omega arith
all_data-skip_le k (rs ∷ runs) = omega (arith, data_size-skip k rs, all_data-skip_le k runs)

all_data-skip :
    (runs : List (List Rec)) (r : Rec)
    → least runs ≡ some r
    → record_size r + all_data (map (skip r.key) runs) ≤ all_data runs
all_data-skip [] r e = unfold least in cc
all_data-skip ([] ∷ runs) r e =
    omega (arith, data_size-skip r.key [], all_data-skip runs r (sym (least-nil runs) ∙ e))
all_data-skip ((q ∷ qs) ∷ runs) r e = elim (least_cases q qs runs r e) [
  | inl h ↦ omega (
    arith,
    ap data_size (skip-head r.key q qs (ap (λ (x : Rec). x.key) h)),
    ap record_size h,
    all_data-skip_le r.key runs,
  )
  | inr (later, h) ↦ omega (arith, data_size-skip r.key (q ∷ qs), all_data-skip runs r later)
]

pub data_size-merge :
    (fuel : ℕ) (runs : List (List Rec)) → data_size (merge fuel runs) ≤ all_data runs
data_size-merge zero runs = unfold merge in omega arith
data_size-merge (suc fuel) runs = elim (Option-cases (least runs)) [
  | inl n ↦ rw (merge_done (suc fuel) runs n) (omega arith)
  | inr (r, e) ↦
      rw (merge_emit fuel runs r e)
        (omega (arith, all_data-skip runs r e, data_size-merge fuel (map (skip r.key) runs)))
]

pub data_size-live : (rs : List Rec) → data_size (live rs) ≤ data_size rs
data_size-live [] = omega arith
data_size-live (r ∷ rs) = ground (arith, data_size-live rs)

pub length-live : (rs : List Rec) → length (live rs) ≤ length rs
length-live [] = omega arith
length-live (r ∷ rs) = ground (arith, length-live rs)
