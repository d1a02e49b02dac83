-- ===== src/Storage/Ranged.antt =====
-- storage/ranged.go: a cursor over a closed interval of keys, in one direction. `Range` opens it on the
-- engine. Where the Prev that fixes up a descending scan fails, the code ignores the error and goes on
-- with a cursor that has turned in part; that state is not modelled, and the cursor here is as before Prev.
pub mod Ascending
use db.Prelude.{
  ℕ, Bool, true, false, not, ◌&&◌, ◌||◌, Option, none, some, Bytes, if◌then◌else◌, lt, eq, gt,
}
use db.Bytes.Order.{cmp, is_lt}
use db.Storage.Cursor.{Cursor}
use db.Storage.Merge.{MergedIter, is_gt}
use db.Storage.Kv.{Kv}
use db.Storage.Levels.{Level, seek, kv_cursor}

pub record RangedIter (I : Type 0) : Type 0 where
  pub iter : I
  pub stop : Bytes
  pub desc : Bool

module _ {I : Type 0} (c : Cursor I) where
  unfoldable pub valid : RangedIter I → Bool
  valid it =
      let r = cmp (c.key it.iter) it.stop in
      if not (c.valid it.iter)
      then false
      else if it.desc && is_lt r
      then false
      else if not it.desc && is_gt r
      then false
      else true

  abbrev moved : RangedIter I → Option I → Option (RangedIter I)
  moved it none = none
  moved it (some i) = some (record it { iter = i })

  unfoldable pub next : RangedIter I → Option (RangedIter I)
  unfolding valid
  next it =
      if not (valid it)
      then some it
      else moved it (if it.desc then c.prev it.iter else c.next it.iter)

  unfoldable pub prev : RangedIter I → Option (RangedIter I)
  prev it = moved it (if it.desc then c.next it.iter else c.prev it.iter)

  abbrev pub ranged_cursor : Cursor (RangedIter I)
  ranged_cursor = record {
    valid = valid;
    key = λ it. c.key it.iter;
    val = λ it. c.val it.iter;
    is_deleted = λ it. c.is_deleted it.iter;
    next = next;
    prev = prev;
  }

  abbrev or_stay : I → Option I → I
  or_stay it none = it
  or_stay it (some it') = it'

  -- The fix-up of a descending scan, to the last key that is not beyond start.
  unfoldable pub fix_up : Bytes → Bool → I → I
  fix_up start desc it =
      if desc && (not (c.valid it) || is_gt (cmp (c.key it) start))
      then or_stay it (c.prev it)
      else it

-- KV.Range
unfoldable pub range : ℕ → Kv → Bytes → Bytes → Bool → Option (RangedIter (MergedIter Level))
range fuel kv start stop desc = elim (seek fuel kv start) [
  | none ↦ none
  | some it ↦
      some (record { iter = fix_up (kv_cursor fuel) start desc it; stop = stop; desc = desc })
]
