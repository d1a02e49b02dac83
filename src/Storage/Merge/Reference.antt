-- ===== src/Storage/Merge/Reference.antt =====
-- The merge of sorted runs, newest first, as a function on lists, and what a lookup in it finds.
use db.Prelude.{
  ℕ, zero, suc, ◌+◌, List, [], ◌∷◌, Option, none, some, Bytes, length, map, if◌then◌else◌,
}
use db.Bytes.Order.{cmp, is_lt, is_eq}
use db.Storage.Run.{Rec, EntryState, absent, find}

-- The smallest head of the runs; on a tie the first run's.
abbrev pub pick : Rec → Option Rec → Rec
pick r none = r
pick r (some s) = if is_lt (cmp s.key r.key) then s else r

unfoldable pub least : List (List Rec) → Option Rec
least [] = none
least ([] ∷ runs) = least runs
least ((r ∷ rs) ∷ runs) = some (pick r (least runs))

-- A run without its head, where that has the key.
unfoldable pub skip : Bytes → List Rec → List Rec
skip k [] = []
skip k (r ∷ rs) = if is_eq (cmp r.key k) then rs else r ∷ rs

-- Emit the smallest head and pass it in every run.
unfoldable pub merge : ℕ → List (List Rec) → List Rec
merge zero runs = []
merge (suc fuel) runs = elim (least runs) [
  | none ↦ []
  | some r ↦ r ∷ merge fuel (map (skip r.key) runs)
]

-- The records in all runs, which is fuel enough.
abbrev pub total : List (List Rec) → ℕ
total [] = 0
total (rs ∷ runs) = length rs + total runs

-- What the first run that knows a key says of it.
abbrev pub or_else : EntryState → EntryState → EntryState
or_else absent s = s
or_else s _ = s

abbrev pub first_hit : Bytes → List (List Rec) → EntryState
first_hit k [] = absent
first_hit k (rs ∷ runs) = or_else (find k rs) (first_hit k runs)
