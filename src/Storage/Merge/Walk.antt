-- ===== src/Storage/Merge/Walk.antt =====
-- What a client reads off a forward walk of the merged cursor.
use db.Prelude.{ℕ, ◌≡◌, List, Bytes, All}
use native.Mathlib.Nat.{le_refl}
use db.Storage.Run.{Rec, IsSorted, find}
use db.Storage.Cursor.{Cursor, Emits, EmitAll}
use db.Storage.Merge.{merged, merged_cursor}
use db.Storage.Merge.Reference.{merge, total, first_hit}
use db.Storage.Merge.Find.{find-merge, merge-IsSorted}
use db.Storage.Merge.Forward.{Emits-merged}

-- Over level cursors each of which emits a sorted run without an error, newest level first, the merged
-- cursor walks forward over a list and ends, without an error, whatever fuel its steps have. The list
-- is sorted, so it has no key twice, and it says of every key what the first level that knows the key
-- says, a tombstone included.
pub find-merged :
    {I : Type 0} (c : Cursor I) (fuel : ℕ) (levels : List I) (runs : List (List Rec))
    → EmitAll c levels runs
    → All IsSorted runs
    → (rs : List Rec) × Emits (merged_cursor c fuel) (merged c levels) rs
      × IsSorted rs
      × ((k : Bytes) → find k rs ≡ first_hit k runs)
find-merged c fuel levels runs h s = (
  merge (total runs) runs,
  Emits-merged c fuel levels runs h,
  merge-IsSorted (total runs) runs s,
  λ k. find-merge (total runs) runs k s (le_refl _),
)
