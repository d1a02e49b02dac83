-- ===== src/Storage/Sstable.antt =====
-- storage/sstable.go: reading an SSTable. A file is what `index` reads from it at each position and
-- its key count; `index` answers `none` where it returns an error. The binary search takes fuel, and
-- the key count is enough.
pub mod Search
pub mod Disk
use db.Prelude.{
  ℕ, zero, suc, ◌+◌, ◌/◌, Bool, true, false, List, [], ◌∷◌, Option, none, some, Bytes, ltb, length,
  get_elem?, if◌then◌else◌, lt, eq, gt,
}
use db.Prelude.Int.{ℤ, pos, negsuc, ◌+ℤ◌, ◌-ℤ◌, ltb_ℤ}
use db.Bytes.Order.{cmp}
use db.Storage.Run.{Rec}

pub record SortedFile : Type 0 where
  pub nkeys : ℕ
  pub index : ℕ → Option Rec

-- A file that holds these records, and reads without an error in range.
abbrev pub file_of : List Rec → SortedFile
file_of rs = record { nkeys = length rs; index = get_elem? rs }

unfoldable pub search_loop : ℕ → (ℕ → Option Rec) → Bytes → ℕ → ℕ → Option (ℕ × Bool)
search_loop zero index target lo hi = some (lo, false)
search_loop (suc fuel) index target lo hi =
    let mid = (lo + hi) / 2 in
    let right = search_loop fuel index target (mid + 1) hi in
    let left = search_loop fuel index target lo mid in
    if ltb lo hi
    then elim (index mid) [
      | none ↦ none
      | some r ↦ elim (cmp r.key target) [ eq ↦ some (mid, true) | lt ↦ right | gt ↦ left ]
    ]
    else some (lo, false)

-- The position of the first key at the target or after, and whether it is the target.
unfoldable pub search : SortedFile → Bytes → Option (ℕ × Bool)
search f target = search_loop f.nkeys f.index target 0 f.nkeys

-- A cursor with the record at its position, cached by `load`; the position may be one past either
-- end.
pub record SortedFileIter : Type 0 where
  pub file : SortedFile
  pub position : ℤ
  pub cached : Option Rec

abbrev read_cached : SortedFile → ℕ → Option SortedFileIter
read_cached f i = elim (f.index i) [
  | none ↦ none
  | some r ↦ some (record { file = f; position = pos i; cached = some r })
]

-- load: the record at a valid position, and none elsewhere.
unfoldable pub load : SortedFile → ℤ → Option SortedFileIter
load f (pos i) =
    if ltb i f.nkeys
    then read_cached f i
    else some (record { file = f; position = pos i; cached = none })
load f (negsuc i) = some (record { file = f; position = negsuc i; cached = none })

unfoldable pub seek : SortedFile → Bytes → Option SortedFileIter
seek f key = elim (search f key) [ none ↦ none | some (i, found) ↦ load f (pos i) ]

unfoldable pub iter : SortedFile → Option SortedFileIter
iter f = load f (pos 0)

unfoldable pub next : SortedFileIter → Option SortedFileIter
next it =
    load it.file
      (if ltb_ℤ it.position (pos it.file.nkeys) then it.position +ℤ pos 1 else it.position)

unfoldable pub prev : SortedFileIter → Option SortedFileIter
prev it = load it.file (if ltb_ℤ it.position (pos 0) then it.position else it.position -ℤ pos 1)

abbrev in_range : ℤ → ℕ → Bool
in_range (pos i) n = ltb i n
in_range (negsuc i) n = false

unfoldable pub valid : SortedFileIter → Bool
valid it = in_range it.position it.file.nkeys

-- Key, Val and Deleted are the cached record's; nil and false past the end.
unfoldable pub key : SortedFileIter → Bytes
key it = elim it.cached [ none ↦ [] | some r ↦ r.key ]

unfoldable pub val : SortedFileIter → Bytes
val it = elim it.cached [ none ↦ [] | some r ↦ r.val ]

unfoldable pub is_deleted : SortedFileIter → Bool
is_deleted it = elim it.cached [ none ↦ false | some r ↦ r.deleted ]
