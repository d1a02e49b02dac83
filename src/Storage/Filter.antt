-- ===== src/Storage/Filter.antt =====
-- storage/filterdel.go: a cursor that passes over tombstones, on top of any cursor. The loops run on
-- fuel; more than the records that are ahead is enough (module Live). An error of the cursor below is
-- none.
pub mod Live
pub mod Find
use db.Prelude.{ℕ, zero, suc, Bool, true, false, ◌&&◌, Option, none, some, if◌then◌else◌}
use db.Storage.Cursor.{Cursor}

module _ {I : Type 0} (c : Cursor I) where
  abbrev move : Bool → I → Option I
  move desc it = if desc then c.prev it else c.next it

  -- for it.Valid() && it.Deleted() { move on }
  unfoldable pub skip_deleted : ℕ → Bool → I → Option I
  skip_deleted zero desc it = none
  skip_deleted (suc fuel) desc it = elim (c.valid it && c.is_deleted it) [
    | false ↦ some it
    | true ↦ elim (move desc it) [ none ↦ none | some it' ↦ skip_deleted fuel desc it' ]
  ]

  unfoldable pub filter_deleted : ℕ → I → Option I
  filter_deleted fuel it = skip_deleted fuel false it

  unfoldable pub next : ℕ → I → Option I
  next fuel it = elim (c.next it) [ none ↦ none | some it' ↦ skip_deleted fuel false it' ]

  unfoldable pub prev : ℕ → I → Option I
  prev fuel it = elim (c.prev it) [ none ↦ none | some it' ↦ skip_deleted fuel true it' ]

  -- Key, Val, Valid and Deleted pass through.
  abbrev pub filter_cursor : ℕ → Cursor I
  filter_cursor fuel = record {
    valid = c.valid;
    key = c.key;
    val = c.val;
    is_deleted = c.is_deleted;
    next = next fuel;
    prev = prev fuel;
  }
