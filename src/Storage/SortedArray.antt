-- ===== src/Storage/SortedArray.antt =====
-- storage/sortedarray.go: the MemTable, three parallel slices sorted by key. A nil value is the
-- empty one. `slices.BinarySearchFunc` and `slices.Insert` are Go's, with the binary search
-- written out; it takes fuel, and the length of the slice is enough (module Search).
pub mod Search
pub mod Refines
pub mod Iter
use db.Prelude.{
  ℕ, zero, suc, ◌+◌, ◌-◌, ◌/◌, Bool, true, false, not, ◌&&◌, List, [], ◌∷◌, ◌++◌, Bytes, length,
  get_or, set, insert_at, take, ltb, if◌then◌else◌, lt, eq, gt,
}
use db.Bytes.Order.{cmp, is_lt, is_eq}
use db.Storage.Run.{EntryState, absent, present, tombstone}

pub record SortedArray : Type 0 where
  pub keys : List Bytes
  pub vals : List Bytes
  pub deleted : List Bool

abbrev pub empty : SortedArray
empty = record { keys = []; vals = []; deleted = [] }

-- for i < j { h := (i+j)/2; if cmp(x[h], target) < 0 { i = h+1 } else { j = h } }
unfoldable pub search_loop : ℕ → (ℕ → Bool) → ℕ → ℕ → ℕ
search_loop zero below i j = i
search_loop (suc fuel) below i j =
    let h = (i + j) / 2 in
    let rest = search_loop fuel below (if below h then h + 1 else i) (if below h then j else h) in
    if ltb i j then rest else i

-- slices.BinarySearchFunc(x, target, bytes.Compare)
unfoldable pub binary_search : List Bytes → Bytes → ℕ × Bool
binary_search x target =
    let n = length x in
    let i = search_loop n (λ h. is_lt (cmp (get_or x h []) target)) 0 n in
    (i, ltb i n && is_eq (cmp (get_or x i []) target))

unfoldable pub size : SortedArray → ℕ
size a = length a.keys

unfoldable pub clear : SortedArray → SortedArray
clear a = empty

-- Push: the caller guarantees the order.
unfoldable pub push : SortedArray → Bytes → Bytes → Bool → SortedArray
push a key val deleted = record {
  keys = a.keys ++ key ∷ [];
  vals = a.vals ++ val ∷ [];
  deleted = a.deleted ++ deleted ∷ [];
}

-- Pop: the last triple goes (on an empty array Go panics; here it stays empty).
unfoldable pub pop : SortedArray → SortedArray
pop a = record {
  keys = take (length a.keys - 1) a.keys;
  vals = take (length a.vals - 1) a.vals;
  deleted = take (length a.deleted - 1) a.deleted;
}

unfoldable pub search : SortedArray → Bytes → ℕ × Bool
search a key = binary_search a.keys key

-- The result is the entry's state, with the value of a present one.
unfoldable pub state : SortedArray → Bytes → EntryState
state a key =
    let (i, found) = search a key in
    if not found
    then absent
    else if get_or a.deleted i false
    then tombstone
    else present (get_or a.vals i [])

-- Get: the value and `ok`.
unfoldable pub get : SortedArray → Bytes → Bytes × Bool
get a key = elim (state a key) [ present v ↦ (v, true) | _ ↦ ([], false) ]

-- Set: the array and `updated`.
unfoldable pub set_entry : SortedArray → Bytes → Bytes → SortedArray × Bool
set_entry a key val =
    let (i, found) = search a key in
    if found
    then (
      record a { vals = set a.vals i val; deleted = set a.deleted i false },
      not (get_or a.deleted i false),
    )
    else (
      record {
        keys = insert_at a.keys i key;
        vals = insert_at a.vals i val;
        deleted = insert_at a.deleted i false;
      },
      false,
    )

unfoldable pub del : SortedArray → Bytes → SortedArray
del a key =
    let (i, found) = search a key in
    if found then record a { vals = set a.vals i []; deleted = set a.deleted i true } else record {
      keys = insert_at a.keys i key;
      vals = insert_at a.vals i [];
      deleted = insert_at a.deleted i true;
    }
