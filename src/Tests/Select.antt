-- ===== src/Tests/Select.antt =====
-- SELECT and INSERT on a table of two rows in an SSTable, with and without a row that does not decode.
use db.Prelude.{
  ℕ, ◌≡◌, ◌<◌, refl, false, true, List, [], ◌∷◌, ◌++◌, Option, none, some, Bytes, arith,
  if◌then◌else◌,
}
use db.Prelude.Int.{pos}
use db.Bytes.Order.{cmp, is_eq}
use db.Storage.Run.{Rec, IsSorted}
use db.Storage.Log.{Io, succeeds}
use db.Storage.Log.Torn.{at_end}
use db.Storage.SortedArray
use db.Storage.SortedArray.Refines.{Holds}
use db.Storage.Sstable.{file_of}
use db.Storage.Kv.{Kv, found, get}
use db.Storage.Kv.Lookup.{IsValid}
use db.Storage.Kv.Write
use db.Storage.Levels.Seek.{sought}
use db.Storage.Ranged.Ascending.{up_to}
use db.Table.Schema.{Schema, Row, encode_key, encode_val}
use db.Table.RowIter.{broken, decoded, decode_row}
use db.Sql.Expr.{column, bin_op, op_add}
use db.Sql.Stmt.{StmtSelect, StmtInsert}
use db.Sql.Planner.{full_scan}
use db.Sql.Engine.{SchemaJson, Engine, ok, error, duplicate_key, get_schema, cached}
use db.Sql.Engine.Exec.{exec_insert, matching_rows, typed_row}
use db.Sql.Engine.Selected.{matching_rows-truncated}
use db.Sql.Engine.Writes.{get-exec_insert}
use db.Tests.Data.{schema, row, later_row, int_cell, str_cell, key_a, key_c}
use db.Tests.Scan.{whole_table, forward, first_key, last_key}

abbrev row_rec : Rec
row_rec = record {
  key = 116 ∷ 0 ∷ 1 ∷ 127 ∷ 255 ∷ 255 ∷ 255 ∷ 255 ∷ 255 ∷ 255 ∷ 251 ∷ 2 ∷ 1 ∷ 1 ∷ 120 ∷ 0 ∷ 0 ∷ [];
  val = 7 ∷ 0 ∷ 0 ∷ 0 ∷ 0 ∷ 0 ∷ 0 ∷ 0 ∷ [];
  deleted = false;
}

abbrev later_rec : Rec
later_rec = record {
  key = 116 ∷ 0 ∷ 1 ∷ 127 ∷ 255 ∷ 255 ∷ 255 ∷ 255 ∷ 255 ∷ 255 ∷ 251 ∷ 2 ∷ 1 ∷ 2 ∷ 0 ∷ 0 ∷ [];
  val = 6 ∷ 0 ∷ 0 ∷ 0 ∷ 0 ∷ 0 ∷ 0 ∷ 0 ∷ [];
  deleted = false;
}

-- Its value has no bytes for the column c.
abbrev bad_rec : Rec
bad_rec = record {
  key = 116 ∷ 0 ∷ 1 ∷ 128 ∷ 0 ∷ 0 ∷ 0 ∷ 0 ∷ 0 ∷ 0 ∷ 9 ∷ 2 ∷ 0 ∷ 0 ∷ [];
  val = [];
  deleted = false;
}

abbrev table_run : List Rec
table_run = row_rec ∷ later_rec ∷ []

abbrev broken_run : List Rec
broken_run = row_rec ∷ later_rec ∷ bad_rec ∷ []

abbrev with_run : List Rec → Kv
with_run rs = record { log = at_end []; mem = SortedArray.empty; main = file_of rs ∷ [] }

empty-Holds : Holds SortedArray.empty []
empty-Holds = record { keys_eq = refl; vals_eq = refl; deleted_eq = refl; sorted = tt }

table_run-IsSorted : IsSorted table_run
unfolding cmp
table_run-IsSorted = ((refl, tt), (tt, tt))

broken_run-IsSorted : IsSorted broken_run
unfolding cmp
broken_run-IsSorted = ((refl, (refl, tt)), ((refl, tt), (tt, tt)))

with_run-IsValid : (rs : List Rec) → IsSorted rs → IsValid (with_run rs) [] (rs ∷ [])
with_run-IsValid rs s = record { mem_holds = empty-Holds; main_eq = refl; sorted = (s, tt) }

abbrev json : SchemaJson
json = record { marshal = λ s. none; unmarshal = λ b. none }

abbrev table_engine : Engine
table_engine = record { kv = with_run table_run; tables = (116 ∷ [], schema) ∷ [] }

t_known : get_schema json (116 ∷ []) table_engine ≡ (table_engine, ok schema)
unfolding get_schema cached cmp
t_known = refl

-- select c, a + c from t
abbrev selection : StmtSelect
selection = record {
  table = 116 ∷ [];
  cols = column key_c ∷ bin_op op_add (column key_a) (column key_c) ∷ [];
  cond = none;
}

row_decodes : decode_row schema row_rec.key row_rec.val ≡ decoded row
unfolding decode_row db.Table.Schema.decode_key cmp db.Table.Schema.decode_pkey db.Table.Schema.fill
    db.Table.Schema.new_row db.Table.Schema.put_read db.Table.Cell.decode_key
    db.Table.Cell.decode_str_key db.Table.Cell.unescape db.Table.Schema.decode_val
    db.Table.Schema.decode_cols db.Table.Schema.is_pkey db.Table.Cell.decode_val
    db.Prelude.Int.of_u64 db.Bytes.Endian.from_be db.Bytes.Endian.from_le
row_decodes = refl

later_decodes : decode_row schema later_rec.key later_rec.val ≡ decoded later_row
unfolding decode_row db.Table.Schema.decode_key cmp db.Table.Schema.decode_pkey db.Table.Schema.fill
    db.Table.Schema.new_row db.Table.Schema.put_read db.Table.Cell.decode_key
    db.Table.Cell.decode_str_key db.Table.Cell.unescape db.Table.Schema.decode_val
    db.Table.Schema.decode_cols db.Table.Schema.is_pkey db.Table.Cell.decode_val
    db.Prelude.Int.of_u64 db.Bytes.Endian.from_be db.Bytes.Endian.from_le
later_decodes = refl

bad_is_broken : decode_row schema bad_rec.key bad_rec.val ≡ broken
unfolding decode_row db.Table.Schema.decode_key cmp db.Table.Schema.decode_pkey db.Table.Schema.fill
    db.Table.Schema.new_row db.Table.Schema.put_read db.Table.Cell.decode_key
    db.Table.Cell.decode_str_key db.Table.Cell.unescape db.Table.Schema.decode_val
    db.Table.Schema.decode_cols db.Table.Schema.is_pkey db.Table.Cell.decode_val
bad_is_broken = refl

three_records :
    up_to (116 ∷ 0 ∷ 255 ∷ []) (sought (116 ∷ 0 ∷ []) ([] ∷ broken_run ∷ []))
    ≡ row_rec ∷ (later_rec ∷ []) ++ bad_rec ∷ []
unfolding db.Storage.Merge.Reference.merge db.Storage.Run.from cmp db.Storage.Merge.Reference.least
    db.Storage.Merge.Reference.skip
three_records = refl

matching_rows-truncated_example :
    matching_rows 9 (with_run broken_run) schema none ≡ ok (row ∷ later_row ∷ [])
matching_rows-truncated_example =
    matching_rows-truncated 9 (with_run broken_run) schema none full_scan (116 ∷ 0 ∷ [])
      (116 ∷ 0 ∷ 255 ∷ []) [] (broken_run ∷ []) (with_run-IsValid broken_run broken_run-IsSorted)
      (omega arith) whole_table forward first_key last_key row_rec (later_rec ∷ []) bad_rec []
      (row ∷ later_row ∷ []) three_records (row_decodes, (later_decodes, tt)) bad_is_broken

abbrev insertion : StmtInsert
insertion = record {
  table = 116 ∷ [];
  value = int_cell (pos 9) ∷ str_cell [] ∷ int_cell (pos 7) ∷ [];
}

new_key : encode_key schema (typed_row insertion.value schema.cols) ≡ some bad_rec.key
unfolding encode_key db.Table.Schema.encode_pkey typed_row db.Table.Cell.encode_key
    db.Table.Cell.encode_str_key db.Bytes.Endian.be_bytes db.Prelude.Int.to_u64 db.Table.Cell.escape
new_key = refl

new_val : encode_val schema (typed_row insertion.value schema.cols) ≡ some row_rec.val
unfolding encode_val db.Table.Schema.encode_cols db.Table.Schema.is_pkey typed_row
    db.Table.Cell.encode_val db.Bytes.Endian.le_bytes db.Prelude.Int.to_u64
new_val = refl

get-exec_insert_example :
    ((io : Io)
      → Write.is_found (get (with_run table_run) bad_rec.key) ≡ true
      → exec_insert json io insertion table_engine ≡ (table_engine, error duplicate_key))
    × (Write.is_found (get (with_run table_run) bad_rec.key) ≡ false
        → ((exec_insert json succeeds insertion table_engine).1 ≡ ok 1)
          × ((j : Bytes)
              → get (exec_insert json succeeds insertion table_engine).0.kv j ≡ (
                  if is_eq (cmp bad_rec.key j)
                  then found row_rec.val
                  else get (with_run table_run) j)))
get-exec_insert_example =
    get-exec_insert json table_engine table_engine [] (table_run ∷ [])
      (with_run-IsValid table_run table_run-IsSorted) insertion schema bad_rec.key row_rec.val
      t_known refl new_key new_val
