-- ===== src/Storage/Sstable/Disk.antt =====
-- storage/sstable.go: the bytes of an SSTable file, as `encodeKV` and `CreateFromSorted` write them
-- and `Open` and `index` read them. An int64 position is a number below 2 ^ 64, and is negative from
-- 2 ^ 63 on. `none` is an error. The file system does what it is told, a read past the end apart.
pub mod Read
pub mod Write
pub mod Open
use db.Prelude.{
  ℕ, zero, suc, ◌+◌, ◌*◌, ◌%◌, ◌^◌, Bool, true, false, not, ◌||◌, List, [], ◌∷◌, ◌++◌, Option, none,
  some, Bytes, length, take, drop, get_or, ltb, ◌==◌, if◌then◌else◌,
}
use db.Bytes.Endian.{le_bytes, from_le}
use db.Bytes.Reader.{slice}
use db.Bytes.File.{read_at, write_at}
use db.Storage.Run.{Rec}
use db.Storage.Cursor.{Cursor, current_rec}
use db.Storage.Sstable.{SortedFile}

-- encodeKV: | keylen(4) | vallen(4) | deleted(1) | key | val |
unfoldable pub encode_kv : Rec → Bytes
encode_kv r =
    le_bytes 4 (length r.key)
    ++ (le_bytes 4 (length r.val) ++ ((if r.deleted then 1 else 0) ∷ (r.key ++ r.val)))

abbrev pub is_negative : ℕ → Bool
is_negative w = not (ltb w (2 ^ 63))

-- A read at an int64 position; a negative one is an error of the call.
abbrev pub pread : ℕ → ℕ → Bytes → Option Bytes
pread p n file = if is_negative (p % 2 ^ 64) then none else read_at (p % 2 ^ 64) n file

-- writeAllAt: an empty write makes no call.
unfoldable pub write_all_at : ℕ → Bytes → Bytes → Option Bytes
write_all_at p [] file = some file
write_all_at p (b ∷ bs) file =
    if is_negative (p % 2 ^ 64) then none else some (write_at (p % 2 ^ 64) (b ∷ bs) file)

-- a < b as int64
abbrev less_int : ℕ → ℕ → Bool
less_int a b = ltb ((a + 2 ^ 63) % 2 ^ 64) ((b + 2 ^ 63) % 2 ^ 64)

-- The lengths in the header make the body, a uint32; a slice past its end is a panic.
abbrev pub read_body : ℕ → Bytes → Bytes → Option Rec
read_body p hdr file =
    let klen = from_le (slice 0 4 hdr) in
    let vlen = from_le (slice 4 8 hdr) in
    elim (pread p ((klen + vlen) % 2 ^ 32) file) [
      | none ↦ none
      | some body ↦
          if ltb (length body) klen
          then none
          else some (record {
            key = take klen body;
            val = drop klen body;
            deleted = not (get_or hdr 8 0 == 0);
          })
    ]

abbrev pub read_record : ℕ → ℕ → Bytes → Option Rec
read_record n offset file =
    if less_int offset ((8 + 8 * n) % 2 ^ 64)
    then none
    else elim (pread offset 9 file) [ none ↦ none | some hdr ↦ read_body (offset + 9) hdr file ]

-- index, for a file of n records
unfoldable pub index : ℕ → Bytes → ℕ → Option Rec
index n file i =
    if ltb i n
    then elim (pread (8 + 8 * i) 8 file) [
      | none ↦ none
      | some slot ↦ read_record n (from_le slot) file
    ]
    else none

-- Open: int(nkeys) of a word from 2 ^ 63 on is negative, and then no position is in range, as for 0. The
-- count is 0 here, where the code's Size and EstimatedSize return the negative number.
unfoldable pub open_file : Bytes → Option SortedFile
open_file file = elim (read_at 0 8 file) [
  | none ↦ none
  | some buf ↦
      let n = if is_negative (from_le buf) then 0 else from_le buf in
      some (record { nkeys = n; index = index n file })
]

module _ {I : Type 0} (c : Cursor I) where
  -- The loop of CreateFromSorted: the records written from position `at` on, the n-th next. It
  -- returns the count and the file; none is an error, or that the fuel ran out.
  unfoldable pub create_loop : ℕ → I → ℕ → ℕ → Bytes → Option (ℕ × Bytes)
  create_loop zero it n at file = none
  create_loop (suc fuel) it n at file =
      let rec = encode_kv (current_rec c it) in
      let rest : Option (ℕ × Bytes) = elim (write_all_at at rec file) [
        | none ↦ none
        | some file' ↦ elim (write_all_at (8 + 8 * n) (le_bytes 8 at) file') [
          | none ↦ none
          | some file'' ↦ elim (c.next it) [
            | none ↦ none
            | some it' ↦ create_loop fuel it' (n + 1) (at + length rec) file''
          ]
        ]
      ] in
      if c.valid it then rest else some (n, file)

  -- CreateFromSorted over a cursor at its start and an estimate of its size. What a file of that
  -- name holds already is not cut off.
  unfoldable pub create : ℕ → ℕ → I → Bytes → Option (ℕ × Bytes)
  create fuel est it old = elim (create_loop fuel it 0 (8 + 8 * est) old) [
    | none ↦ none
    | some (n, file) ↦ elim (write_all_at 0 (le_bytes 8 n) file) [
      | none ↦ none
      | some file' ↦ some (n, file')
    ]
  ]
