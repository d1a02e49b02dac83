-- ===== src/Sql/Select/Ascending.antt =====
-- sql/planner.go: execCond on an ascending range.
use db.Prelude.{
  length, ℕ, ◌<◌, ◌≡◌, refl, ap, ◌∙◌, false, Option, List, [], ◌∷◌, some, arith, Bytes,
}
use db.Storage.Run.{Rec}
use db.Storage.Kv.{Kv}
use db.Storage.Kv.Lookup.{IsValid}
use db.Storage.Cursor.{Emits}
use db.Storage.Merge.{MergedIter}
use db.Storage.Merge.Reference.{total}
use db.Storage.Levels.{Level, kv_cursor}
use db.Storage.Levels.Seek.{sought, length-sought, Emits-seek}
use db.Storage.Ranged.{RangedIter, ranged_cursor}
use db.Storage.Ranged
use db.Storage.Ranged.Ascending.{up_to, upward, Emits-upward, range-upward, length-up_to}
use db.Table.Schema.{Schema, encode_key_prefix}
use db.Table.RowIter.{decode, new_row_iterator}
use db.Table.RowIter.Scan.{collected, collected-rows, rows}
use db.Sql.Expr.{Expr}
use db.Sql.Planner.{RangeReq, matched, is_descending, suffix_positive, make_range}
use db.Sql.Select.{range, exec_cond}

range_opened :
    (fuel : ℕ) (kv : Kv) (schema : Schema) (req : RangeReq) (start stop : Bytes)
    (it : RangedIter (MergedIter Level))
    → encode_key_prefix schema req.start (suffix_positive req.start_cmp) ≡ some start
    → encode_key_prefix schema req.stop (suffix_positive req.stop_cmp) ≡ some stop
    → is_descending req.start_cmp ≡ false
    → Ranged.range fuel kv start stop false ≡ some it
    → range fuel kv schema req ≡ decode (ranged_cursor (kv_cursor fuel)) schema [] it
unfolding range new_row_iterator
range_opened fuel kv schema req start stop it a b d e = rw (a, b, d, e) refl

exec_cond-range :
    (fuel : ℕ) (kv : Kv) (schema : Schema) (cond : Option Expr) (req : RangeReq)
    → make_range schema cond ≡ matched req
    → exec_cond fuel kv schema cond ≡ range fuel kv schema req
unfolding exec_cond
exec_cond-range fuel kv schema cond req e = ground (arith, e)

module _ (fuel : ℕ) (kv : Kv) (schema : Schema) (cond : Option Expr) (req : RangeReq)
    (start stop : Bytes) (rs : List Rec) (runs : List (List Rec)) (v : IsValid kv rs runs)
    (enough : total (rs ∷ runs) < fuel) (m : make_range schema cond ≡ matched req)
    (d : is_descending req.start_cmp ≡ false)
    (a : encode_key_prefix schema req.start (suffix_positive req.start_cmp) ≡ some start)
    (b : encode_key_prefix schema req.stop (suffix_positive req.stop_cmp) ≡ some stop) where
  -- The cursor that it opens, over the live records between the bounds.
  pub exec_cond-opened :
      (it : RangedIter (MergedIter Level)) × (exec_cond fuel kv schema cond
        ≡ decode (ranged_cursor (kv_cursor fuel)) schema [] it)
      × Emits (ranged_cursor (kv_cursor fuel)) it (up_to stop (sought start (rs ∷ runs)))
      × (length (up_to stop (sought start (rs ∷ runs))) < fuel)
  exec_cond-opened =
      let (it, e, h) = Emits-seek kv rs runs v fuel start enough in
      let found = sought start (rs ∷ runs) in
      (
        upward (kv_cursor fuel) stop it,
        exec_cond-range fuel kv schema cond req m
            ∙ range_opened fuel kv schema req start stop (upward (kv_cursor fuel) stop it) a b d
                (range-upward fuel kv start stop it e),
        Emits-upward (kv_cursor fuel) stop it found h,
        omega (arith, length-up_to stop found, length-sought start (rs ∷ runs)),
      )

  -- In a valid engine, with fuel for more than the records of all levels: a WHERE expression that plans to an ascending
  -- range whose bounds encode as start and stop selects the rows that
  -- the live records from start to stop decode to, in the order of the keys, up to the first record that is past the table.
  -- The walk meets an error exactly if one of the records before that does not decode.
  pub exec_cond-rows :
      collected (ranged_cursor (kv_cursor fuel)) schema fuel (exec_cond fuel kv schema cond)
      ≡ rows schema (up_to stop (sought start (rs ∷ runs)))
  exec_cond-rows =
      let (it, e, h, l) = exec_cond-opened in
      ap (collected (ranged_cursor (kv_cursor fuel)) schema fuel) e
      ∙ collected-rows (ranged_cursor (kv_cursor fuel)) schema fuel [] it
          (up_to stop (sought start (rs ∷ runs))) h l
