-- ===== src/Tests/Scan.antt =====
-- Seeking, a range and a scan of rows, on an engine with a MemTable and an SSTable.
use db.Prelude.{◌≡◌, false, ◌||◌, List, ◌∷◌, [], some, Bytes, All, arith, if◌then◌else◌}
use db.Bytes.Order.{cmp, is_lt}
use db.Storage.Run.{Rec, IsSorted, find}
use db.Storage.Cursor.{Emits}
use db.Storage.Merge.{MergedIter, is_gt}
use db.Storage.Kv.{missing, get}
use db.Storage.Kv.Lookup.{answer}
use db.Storage.Levels.{Level, seek, kv_cursor}
use db.Storage.Levels.Seek.{seek-get, sought}
use db.Storage.Ranged.{RangedIter, ranged_cursor, range}
use db.Storage.Ranged.Ascending.{Within, range-get}
use db.Table.RowIter
use db.Prelude.{none, refl}
use db.Sql.Planner.{full_scan, matched, make_range, suffix_positive, is_descending}
use db.Sql.Expr.{op_ge, op_le}
use db.Table.Schema.{encode_key_prefix, encode_cells}
use db.Table.RowIter.Scan.{collected, rows, seek-rows}
use db.Tests.Data.{mem_run, old_run, engine, engine-IsValid, key_a, key_b, schema}

seek-get_example :
    (it : MergedIter Level) × (emitted : List Rec) × (seek 5 engine key_b ≡ some it)
    × Emits (kv_cursor 5) it emitted
    × IsSorted emitted
    × All (λ r. r.deleted ≡ false) emitted
    × ((j : Bytes)
        → answer (find j emitted) ≡ (if is_lt (cmp j key_b) then missing else get engine j))
seek-get_example = seek-get engine mem_run (old_run ∷ []) engine-IsValid 5 key_b (omega arith)

range-get_example :
    (it : RangedIter (MergedIter Level)) × (emitted : List Rec) × (range 5 engine key_a key_b false
      ≡ some it)
    × Emits (ranged_cursor (kv_cursor 5)) it emitted
    × IsSorted emitted
    × All (Within key_a key_b) emitted
    × ((j : Bytes)
        → answer (find j emitted)
          ≡ (if is_lt (cmp j key_a) || is_gt (cmp j key_b) then missing else get engine j))
range-get_example =
    range-get engine mem_run (old_run ∷ []) 5 key_a key_b engine-IsValid (omega arith)

seek-rows_example :
    collected (kv_cursor 5) schema 5 (RowIter.seek 5 engine schema key_a)
    ≡ rows schema (sought key_a (mem_run ∷ old_run ∷ []))
seek-rows_example =
    seek-rows 5 engine schema key_a mem_run (old_run ∷ []) engine-IsValid (omega arith)

pub whole_table : make_range schema none ≡ matched full_scan
unfolding make_range
whole_table = refl

pub forward : is_descending op_ge ≡ false
unfolding is_descending
forward = refl

pub first_key : encode_key_prefix schema [] (suffix_positive op_ge) ≡ some (116 ∷ 0 ∷ [])
unfolding encode_key_prefix suffix_positive encode_cells
first_key = refl

pub last_key : encode_key_prefix schema [] (suffix_positive op_le) ≡ some (116 ∷ 0 ∷ 255 ∷ [])
unfolding encode_key_prefix suffix_positive encode_cells
last_key = refl
