-- ===== src/Table/Schema.antt =====
-- table/schema.go: tables' columns, and rows as keys and values of the store. A column index is a
-- natural number; a slice index out of range is a panic.
pub mod Member
pub mod Order
pub mod Prefix
pub mod RoundTrip
use db.Prelude.{
  ℕ, suc, Bool, true, false, not, ◌||◌, Option, none, some, List, [], ◌∷◌, ◌++◌, map, Bytes, length,
  take, drop, get_elem?, set, ◌>>=◌, ltb, ◌==◌, if◌then◌else◌,
}
use db.Bytes.Order.{cmp, is_eq}
use db.Table.Cell.{
  Cell, CellType, unset, type_i64, type_str, CellError, short_cell, Read, done, zero_cell,
}
use db.Table.Cell

pub record Column : Type 0 where
  pub name : Bytes
  pub ty : CellType

pub record Schema : Type 0 where
  pub table : Bytes
  pub cols : List Column
  pub pkey : List ℕ

abbrev pub Row : Type 0
Row = List Cell

-- ColIndex; none is -1.
index_of : Bytes → ℕ → List Column → Option ℕ
index_of name i [] = none
index_of name i (c ∷ cs) =
    let later = index_of name (suc i) cs in if is_eq (cmp c.name name) then some i else later

unfoldable pub col_index : Schema → Bytes → Option ℕ
unfolding index_of
col_index schema name = index_of name 0 schema.cols

-- IsPKey
unfoldable pub is_member : ℕ → List ℕ → Bool
is_member i [] = false
is_member i (p ∷ ps) = let later = is_member i ps in if p == i then true else later

unfoldable pub is_pkey : Schema → ℕ → Bool
unfolding is_member
is_pkey schema i = is_member i schema.pkey

-- NewRow
unfoldable pub new_row : Schema → Row
new_row schema = map (λ (c : Column). zero_cell) schema.cols

-- byte(cell.Type)
abbrev pub tag : CellType → ℕ
tag unset = 0
tag type_i64 = 1
tag type_str = 2

-- Row.EncodeKey: the loop over the primary key, and the whole.
unfoldable pub encode_pkey : Row → List ℕ → Bytes → Option Bytes
encode_pkey row [] key = some key
encode_pkey row (idx ∷ pkey) key = do
  cell ← get_elem? row idx
  key ← Cell.encode_key cell (key ++ tag cell.ty ∷ [])
  encode_pkey row pkey key

unfoldable pub encode_key : Schema → Row → Option Bytes
encode_key schema row = do
  key ← encode_pkey row schema.pkey (schema.table ++ 0 ∷ [])
  some (key ++ 0 ∷ [])

-- EncodeKeyPrefix
unfoldable pub encode_cells : List Cell → Bytes → Option Bytes
encode_cells [] key = some key
encode_cells (cell ∷ prefix) key = do
  key ← Cell.encode_key cell (key ++ tag cell.ty ∷ [])
  encode_cells prefix key

unfoldable pub encode_key_prefix : Schema → List Cell → Bool → Option Bytes
encode_key_prefix schema prefix positive = do
  key ← encode_cells prefix (schema.table ++ 0 ∷ [])
  some (if positive then key ++ 255 ∷ [] else key)

-- Row.EncodeVal: the loop from column i on.
unfoldable pub encode_cols : Schema → Row → ℕ → List Column → Bytes → Option Bytes
encode_cols schema row i [] val = some val
encode_cols schema row i (c ∷ cols) val =
    if is_pkey schema i then encode_cols schema row (suc i) cols val else do
      cell ← get_elem? row i
      val ← Cell.encode_val cell val
      encode_cols schema row (suc i) cols val

unfoldable pub encode_val : Schema → Row → Option Bytes
encode_val schema row = encode_cols schema row 0 schema.cols []

-- How the two row decoders end.
pub data Outcome : Type 0 where
  ok out_of_range panic : Outcome
  failed : CellError → Outcome

abbrev pub with_type : Cell → CellType → Cell
with_type cell t = record { ty = t; i64 = cell.i64; str = cell.str }

-- One column: the cell at an index takes the schema's type, then a decoder fills it in. The row and
-- what is left, or how the decoder failed.
pub data Step : Type 0 where
  filled : Row → Bytes → Step
  stopped : Row → Outcome → Step

unfoldable pub put_read : Row → ℕ → Read → Step
put_read row idx (done cell rest) = filled (set row idx cell) rest
put_read row idx (Cell.failed e) = stopped row (failed e)

unfoldable pub fill : (Cell → Bytes → Read) → Schema → Row → ℕ → Bytes → Step
fill decode schema row idx b = elim (get_elem? row idx) [
  | none ↦ stopped row panic
  | some cell ↦ elim (get_elem? schema.cols idx) [
    | none ↦ stopped row panic
    | some col ↦
        let typed = with_type cell col.ty in put_read (set row idx typed) idx (decode typed b)
  ]
]

-- Row.DecodeKey: the loop over the primary key, and the whole. The row is changed in place, also
-- when the decoder fails on the way.
unfoldable pub decode_pkey : Schema → Row → List ℕ → Bytes → Row × Outcome
decode_pkey schema row [] rest = (row, ok)
decode_pkey schema row (idx ∷ pkey) rest =
    if length rest == 0
    then (row, failed short_cell)
    else elim (fill Cell.decode_key schema row idx (drop 1 rest)) [
      | filled row rest ↦ decode_pkey schema row pkey rest
      | stopped row o ↦ (row, o)
    ]

unfoldable pub decode_key : Schema → Row → Bytes → Row × Outcome
decode_key schema row key =
    let prefix = schema.table ++ 0 ∷ [] in
    if ltb (length key) (length prefix) || not (is_eq (cmp (take (length prefix) key) prefix))
    then (row, out_of_range)
    else decode_pkey schema row schema.pkey (drop (length prefix) key)

-- Row.DecodeVal: the loop from column i on.
unfoldable pub decode_cols : Schema → Row → ℕ → List Column → Bytes → Row × Outcome
decode_cols schema row i [] rest = (row, ok)
decode_cols schema row i (c ∷ cols) rest =
    let skipped = decode_cols schema row (suc i) cols rest in
    if is_pkey schema i then skipped else elim (fill Cell.decode_val schema row i rest) [
      | filled row rest ↦ decode_cols schema row (suc i) cols rest
      | stopped row o ↦ (row, o)
    ]

unfoldable pub decode_val : Schema → Row → Bytes → Row × Outcome
decode_val schema row val = decode_cols schema row 0 schema.cols val
