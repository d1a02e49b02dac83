-- ===== src/Table/RowIter.antt =====
-- table/rowiter.go: rows over a cursor of the store, to the end of the table's keys. An error of the
-- cursor or of a decoder is none, and so is a decoder's panic.
pub mod RoundTrip
pub mod Scan
use db.Prelude.{
  ℕ, zero, suc, Bool, true, false, List, [], ◌∷◌, ◌++◌, Option, none, some, Bytes, if◌then◌else◌,
}
use mathlib.Core.Option
use db.Storage.Cursor.{Cursor}
use db.Storage.Kv.{Kv}
use db.Storage.Merge.{MergedIter}
use db.Storage.Levels
use db.Storage.Levels.{Level, kv_cursor}
use db.Table.Schema.{
  Schema, Row, Outcome, ok, out_of_range, panic, failed, new_row, decode_key, decode_val,
}

pub record RowIterator (I : Type 0) : Type 0 where
  pub schema : Schema
  pub iter : I
  pub valid : Bool
  pub row : Row

-- The row of one record: past the table, a row, an error, or a panic.
pub data Decoded : Type 0 where
  past : Decoded
  decoded : Row → Decoded
  broken panicked : Decoded

abbrev pub after_val : Row × Outcome → Decoded
after_val (row, ok) = decoded row
after_val (row, panic) = panicked
after_val (row, _) = broken

abbrev pub after_key : Schema → Bytes → Row × Outcome → Decoded
after_key schema val (row, ok) = after_val (decode_val schema row val)
after_key schema val (row, out_of_range) = past
after_key schema val (row, panic) = panicked
after_key schema val (row, _) = broken

unfoldable pub decode_row : Schema → Bytes → Bytes → Decoded
decode_row schema key val = after_key schema val (decode_key schema (new_row schema) key)

module _ {I : Type 0} (c : Cursor I) where
  -- decode, at the cursor's position; `row` is the row of the last one.
  unfoldable pub decode : Schema → Row → I → Option (RowIterator I)
  decode schema row it =
      if c.valid it
      then elim (decode_row schema (c.key it) (c.val it)) [
        | past ↦ some (record { schema = schema; iter = it; valid = false; row = row })
        | decoded row' ↦ some (record { schema = schema; iter = it; valid = true; row = row' })
        | broken ↦ none
        | panicked ↦ none
      ]
      else some (record { schema = schema; iter = it; valid = false; row = row })

  unfoldable pub new_row_iterator : Schema → I → Option (RowIterator I)
  new_row_iterator schema it = decode schema [] it

  unfoldable pub next : RowIterator I → Option (RowIterator I)
  next r = elim (c.next r.iter) [ none ↦ none | some it ↦ decode r.schema r.row it ]

  unfoldable pub prev : RowIterator I → Option (RowIterator I)
  prev r = elim (c.prev r.iter) [ none ↦ none | some it ↦ decode r.schema r.row it ]

  -- The loop of the callers, for ; it.Valid(); it.Next() { emit }. None is an error, or that the fuel ran
  -- out.
  unfoldable pub collect : ℕ → RowIterator I → Option (List Row)
  collect zero r = none
  collect (suc n) r =
      let rest : Option (List Row) = elim (next r) [ none ↦ none | some r' ↦ collect n r' ] in
      if r.valid then Option.map (λ rows. r.row ∷ rows) rest else some []

unfoldable pub table_start_key : Schema → Bytes
table_start_key schema = schema.table ++ 0 ∷ []

-- DB.Seek and DB.Scan; the fuel is for the loops of the store's cursor.
unfoldable pub seek : ℕ → Kv → Schema → Bytes → Option (RowIterator (MergedIter Level))
seek fuel kv schema key = elim (Levels.seek fuel kv key) [
  | none ↦ none
  | some it ↦ new_row_iterator (kv_cursor fuel) schema it
]

unfoldable pub scan : ℕ → Kv → Schema → Option (RowIterator (MergedIter Level))
scan fuel kv schema = seek fuel kv schema (table_start_key schema)
