-- ===== src/Table/Cell.antt =====
-- table/cell.go: a typed cell, its value form and its order-preserving key form.
pub mod Escape
pub mod Order
pub mod RoundTrip
use db.Prelude.{
  ℕ, suc, ◌+◌, ◌-◌, ◌%◌, ◌^◌, Bool, true, false, ◌||◌, Option, none, some, List, [], ◌∷◌, ◌++◌,
  Bytes, length, take, drop, ltb, ◌==◌, if◌then◌else◌, bit_xor,
}
use db.Prelude.Int.{ℤ, pos, to_u64, of_u64}
use db.Bytes.Endian.{le_bytes, from_le, be_bytes, from_be}

-- CellType, with the zero value that neither constant names.
pub data CellType : Type 0 where
  unset type_i64 type_str : CellType

pub record Cell : Type 0 where
  pub ty : CellType
  pub i64 : ℤ
  pub str : Bytes

-- The zero Cell.
abbrev pub zero_cell : Cell
zero_cell = record { ty = unset; i64 = pos 0; str = [] }

pub data CellError : Type 0 where
  short_cell unknown_type bad_escape : CellError

-- What the two decoders return: the cell with its value filled in and the rest, or the error. On an
-- error the cell is as it was.
pub data Read : Type 0 where
  done : Cell → Bytes → Read
  failed : CellError → Read

abbrev pub with_i64 : Cell → ℤ → Cell
with_i64 cell x = record { ty = cell.ty; i64 = x; str = cell.str }

abbrev pub with_str : Cell → Bytes → Cell
with_str cell s = record { ty = cell.ty; i64 = cell.i64; str = s }

-- EncodeVal; none is the panic on an unknown type.
unfoldable pub encode_val_as : CellType → Cell → Bytes → Option Bytes
encode_val_as unset cell to_append = none
encode_val_as type_i64 cell to_append = some (to_append ++ le_bytes 8 (to_u64 cell.i64))
encode_val_as type_str cell to_append =
    some (to_append ++ (le_bytes 4 (length cell.str % 2 ^ 32) ++ cell.str))

unfoldable pub encode_val : Cell → Bytes → Option Bytes
unfolding encode_val_as
encode_val cell to_append = encode_val_as cell.ty cell to_append

-- DecodeVal
unfoldable pub decode_val_as : CellType → Cell → Bytes → Read
decode_val_as unset cell b = failed unknown_type
decode_val_as type_i64 cell b =
    if ltb (length b) 8
    then failed short_cell
    else done (with_i64 cell (of_u64 (from_le (take 8 b)))) (drop 8 b)
decode_val_as type_str cell b =
    if ltb (length b) 4
    then failed short_cell
    else (let n = from_le (take 4 b) in
        let rest = drop 4 b in
        if ltb (length rest % 2 ^ 32) n
        then failed short_cell
        else done (with_str cell (take n rest)) (drop n rest))

unfoldable pub decode_val : Cell → Bytes → Read
unfolding decode_val_as
decode_val cell b = decode_val_as cell.ty cell b

-- encodeStrKey: the loop, then the terminator.
unfoldable pub escape : Bytes → Bytes
escape [] = []
escape (ch ∷ input) =
    if (ch == 0) || (ch == 1) then 1 ∷ suc ch ∷ escape input else ch ∷ escape input

unfoldable pub encode_str_key : Bytes → Bytes → Bytes
encode_str_key out input = out ++ (escape input ++ 0 ∷ [])

-- EncodeKey
unfoldable pub encode_key_as : CellType → Cell → Bytes → Option Bytes
encode_key_as unset cell out = none
encode_key_as type_i64 cell out = some (out ++ be_bytes 8 (bit_xor (to_u64 cell.i64) (2 ^ 63)))
encode_key_as type_str cell out = some (encode_str_key out cell.str)

unfoldable pub encode_key : Cell → Bytes → Option Bytes
unfolding encode_key_as
encode_key cell out = encode_key_as cell.ty cell out

-- The loop of decodeStrKey, with the bytes that are gathered so far. The byte behind an escape is
-- read together with it.
unfoldable pub unescape : Cell → Bytes → Bytes → Read
unescape cell s [] = failed short_cell
unescape cell s (b ∷ []) =
    if b == 0
    then done (with_str cell s) []
    else if b == 1
    then failed bad_escape
    else failed short_cell
unescape cell s (b ∷ c ∷ rest) =
    let escaped = unescape cell (s ++ (c - 1) ∷ []) rest in
    let plain = unescape cell (s ++ b ∷ []) (c ∷ rest) in
    if b == 0
    then done (with_str cell s) (c ∷ rest)
    else if b == 1
    then (if (c == 1) || (c == 2) then escaped else failed bad_escape)
    else plain

unfoldable pub decode_str_key : Cell → Bytes → Read
decode_str_key cell b = unescape cell [] b

-- DecodeKey
unfoldable pub decode_key_as : CellType → Cell → Bytes → Read
decode_key_as unset cell b = failed unknown_type
decode_key_as type_i64 cell b =
    if ltb (length b) 8
    then failed short_cell
    else done (with_i64 cell (of_u64 (bit_xor (from_be (take 8 b)) (2 ^ 63)))) (drop 8 b)
decode_key_as type_str cell b = decode_str_key cell b

unfoldable pub decode_key : Cell → Bytes → Read
unfolding decode_key_as
decode_key cell b = decode_key_as cell.ty cell b
