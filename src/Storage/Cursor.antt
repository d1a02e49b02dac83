-- ===== src/Storage/Cursor.antt =====
-- The interface `SortedKVIter` of storage/sstable.go: what a cursor over sorted records offers, and
-- what the code that walks it relies on. `next` and `prev` answer `none` where the call returns an
-- error; the errors are those of the files below.
use db.Prelude.{◌≡◌, Bool, true, false, List, [], ◌∷◌, Option, some, Bytes}
use db.Storage.Run.{Rec}

pub record Cursor (I : Type 0) : Type 0 where
  pub valid : I → Bool
  pub key : I → Bytes
  pub val : I → Bytes
  pub is_deleted : I → Bool
  pub next : I → Option I
  pub prev : I → Option I

module _ {I : Type 0} (c : Cursor I) where
  abbrev pub current_rec : I → Rec
  current_rec it = record { key = c.key it; val = c.val it; deleted = c.is_deleted it }

  -- On its way forward the cursor emits these records and then ends, without an error.
  abbrev pub Emits : I → List Rec → Type 0
  Emits it [] = c.valid it ≡ false
  Emits it (r ∷ rs) =
      (c.valid it ≡ true) × (current_rec it ≡ r) × (it' : I) × (c.next it ≡ some it') × Emits it' rs

  abbrev pub EmitAll : List I → List (List Rec) → Type 0
  EmitAll [] [] = Unit
  EmitAll (it ∷ its) (rs ∷ runs) = Emits it rs × EmitAll its runs
  EmitAll _ _ = ⊥
