-- ===== src/Table/RowIter/RoundTrip.antt =====
-- table/rowiter.go (decode): the row of a record whose key and value are those of a row.
use db.Prelude.{◌^◌, ◌<◌, ◌≡◌, refl, some, Bytes, length}
use db.Table.Schema.{Schema, Row, encode_key, encode_val}
use db.Table.Schema.RoundTrip.{FitsSchema}
use db.Table.Schema.RoundTrip.Rows.{key_comes_back, val_comes_back}
use db.Table.RowIter.{decoded, decode_row}

-- The row iterator decodes a record to the row whose key and value the record holds, the columns in
-- their order, where every cell of the row is valid and of its column's type, holds nothing but that
-- type's value, and the value has under 2 ^ 32 bytes.
pub decode_row-encode_val :
    (schema : Schema) (row : Row) (key val : Bytes)
    → FitsSchema schema row
    → encode_key schema row ≡ some key
    → encode_val schema row ≡ some val
    → length val < 2 ^ 32
    → decode_row schema key val ≡ decoded row
unfolding decode_row
decode_row-encode_val schema row key val fits hk hv b =
    let (r, d, p, keys) = key_comes_back schema row fits key hk in
    rw (d, val_comes_back schema row fits r val hv b p keys) refl
