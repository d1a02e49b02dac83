-- ===== src/Sql/Select.antt =====
-- sql/planner.go (Range and execCond): the rows that a WHERE expression selects, as an
-- iterator on the engine. None is an error or a panic.
pub mod Ascending
use db.Prelude.{ℕ, Option, none, some, ◌>>=◌}
use db.Storage.Kv.{Kv}
use db.Storage.Merge.{MergedIter}
use db.Storage.Levels.{Level, kv_cursor}
use db.Storage.Ranged.{RangedIter, ranged_cursor}
use db.Storage.Ranged
use db.Table.Schema.{Schema, encode_key_prefix}
use db.Table.RowIter.{RowIterator, new_row_iterator}
use db.Sql.Expr.{Expr}
use db.Sql.Planner.{RangeReq, matched, unmatched, panic, is_descending, suffix_positive, make_range}

abbrev pub RangeRows : Type 0
RangeRows = Option (RowIterator (RangedIter (MergedIter Level)))

-- Range; the fuel is for the loops of the store's cursor.
unfoldable pub range : ℕ → Kv → Schema → RangeReq → RangeRows
range fuel kv schema req = do
  start ← encode_key_prefix schema req.start (suffix_positive req.start_cmp)
  stop ← encode_key_prefix schema req.stop (suffix_positive req.stop_cmp)
  it ← Ranged.range fuel kv start stop (is_descending req.start_cmp)
  new_row_iterator (ranged_cursor (kv_cursor fuel)) schema it

unfoldable pub exec_cond : ℕ → Kv → Schema → Option Expr → RangeRows
exec_cond fuel kv schema cond = elim (make_range schema cond) [
  | matched req ↦ range fuel kv schema req
  | unmatched ↦ none
  | panic ↦ none
]
