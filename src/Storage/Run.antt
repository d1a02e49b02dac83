-- ===== src/Storage/Run.antt =====
-- The abstract view of one level of the store: a sorted sequence of records, no key twice. A
-- MemTable and an SSTable are both such a run to a merge, which reads them through a cursor
-- (the interface `SortedKV` of storage/sstable.go).
pub mod Laws
pub mod From
use db.Prelude.{◌≡◌, Bool, true, false, List, [], ◌∷◌, Bytes, All, if◌then◌else◌, lt, eq, gt}
use db.Bytes.Order.{cmp, ◌≺◌, is_lt}

-- One record: the key, the value and the tombstone flag.
pub record Rec : Type 0 where
  pub key : Bytes
  pub val : Bytes
  pub deleted : Bool

abbrev pub IsSorted : List Rec → Type 0
IsSorted [] = Unit
IsSorted (r ∷ rs) = All (λ s. r.key ≺ s.key) rs × IsSorted rs

-- What one level says of a key: `entryState` and the value that comes with it.
pub data EntryState : Type 0 where
  absent : EntryState
  present : Bytes → EntryState
  tombstone : EntryState

abbrev pub state_of : Rec → EntryState
state_of r = if r.deleted then tombstone else present r.val

-- The first record of that key decides.
unfoldable pub find : Bytes → List Rec → EntryState
find k [] = absent
find k (r ∷ rs) = elim (cmp r.key k) [ eq ↦ state_of r | _ ↦ find k rs ]

-- Insert or overwrite, keeping the order.
unfoldable pub put : Rec → List Rec → List Rec
put n [] = n ∷ []
put n (r ∷ rs) = elim (cmp r.key n.key) [ lt ↦ r ∷ put n rs | eq ↦ n ∷ rs | gt ↦ n ∷ r ∷ rs ]

-- The records from a key on: what `Seek` and repeated `Next` emit.
unfoldable pub from : Bytes → List Rec → List Rec
from k [] = []
from k (r ∷ rs) = if is_lt (cmp r.key k) then from k rs else r ∷ from k rs
