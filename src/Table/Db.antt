-- ===== src/Table/Db.antt =====
-- table/db.go: the five row operations, each a call on the key-value store. A row that does not encode
-- panics in Go, and is none here. The store is threaded through the writes.
pub mod Rows
use db.Prelude.{Bool, true, false, Option, none, some, List, ◌>>=◌, Bytes}
use db.Table.Cell.{Cell}
use db.Table.Schema.{Schema, Row, Outcome, ok, encode_key, encode_val, decode_val}
use db.Storage.Kv.{
  Kv, Got, error, missing, found, get, UpdateMode, mode_upsert, mode_insert, mode_update, Done,
  set_ex,
}
use db.Storage.Kv
use db.Storage.Log.{Io}

-- What Select returns: the row, and a hit, a miss, an error of the store, or what stopped the decoder.
pub data Selected : Type 0 where
  hit miss store_error : Selected
  not_decoded : Outcome → Selected

abbrev pub selected : Row × Outcome → Row × Selected
selected (row, ok) = (row, hit)
selected (row, o) = (row, not_decoded o)

unfoldable pub select : Kv → Schema → Row → Option (Row × Selected)
select kv schema row = do
  key ← encode_key schema row
  elim (get kv key) [
    | error ↦ some (row, store_error)
    | missing ↦ some (row, miss)
    | found val ↦ some (selected (decode_val schema row val))
  ]

unfoldable pub set_row : UpdateMode → Io → Kv → Schema → Row → Option (Kv × Done)
set_row mode io kv schema row = do
  key ← encode_key schema row
  val ← encode_val schema row
  some (set_ex io kv key val mode)

unfoldable pub insert : Io → Kv → Schema → Row → Option (Kv × Done)
unfolding set_row
insert io kv schema row = set_row mode_insert io kv schema row

unfoldable pub upsert : Io → Kv → Schema → Row → Option (Kv × Done)
unfolding set_row
upsert io kv schema row = set_row mode_upsert io kv schema row

unfoldable pub update : Io → Kv → Schema → Row → Option (Kv × Done)
unfolding set_row
update io kv schema row = set_row mode_update io kv schema row

unfoldable pub delete : Io → Kv → Schema → Row → Option (Kv × Done)
delete io kv schema row = do key ← encode_key schema row; some (Kv.del io kv key)
