-- ===== src/Tests/Merge.antt =====
-- A merged cursor and a filtered one, over cursors on lists.
use db.Prelude.{◌≡◌, refl, Bool, true, false, List, [], ◌∷◌, none, some, Bytes}
use db.Storage.Run.{Rec, IsSorted, find}
use db.Storage.Cursor.{Cursor, Emits, EmitAll}
use db.Storage.Merge.{merged, merged_cursor}
use db.Storage.Merge.Reference.{first_hit}
use db.Storage.Merge.Walk.{find-merged}
use db.Tests.Data.{mem_run, old_run, mem_run-IsSorted, old_run-IsSorted}

-- A cursor over a list of records that goes forward only.
abbrev list_valid : List Rec → Bool
list_valid [] = false
list_valid (r ∷ rs) = true

abbrev list_head : List Rec → Rec
list_head [] = record { key = []; val = []; deleted = false }
list_head (r ∷ rs) = r

abbrev list_next : List Rec → List Rec
list_next [] = []
list_next (r ∷ rs) = rs

abbrev pub list_cursor : Cursor (List Rec)
list_cursor = record {
  valid = list_valid;
  key = λ rs. (list_head rs).key;
  val = λ rs. (list_head rs).val;
  is_deleted = λ rs. (list_head rs).deleted;
  next = λ rs. some (list_next rs);
  prev = λ rs. none;
}

pub list_cursor-Emits : (rs : List Rec) → Emits list_cursor rs rs
list_cursor-Emits [] = refl
list_cursor-Emits (r ∷ rs) = (refl, refl, rs, refl, list_cursor-Emits rs)

both-EmitAll : EmitAll list_cursor (mem_run ∷ old_run ∷ []) (mem_run ∷ old_run ∷ [])
both-EmitAll = (list_cursor-Emits mem_run, (list_cursor-Emits old_run, tt))

find-merged_example :
    (rs : List Rec) × Emits
      (merged_cursor list_cursor 0)
      (merged list_cursor (mem_run ∷ old_run ∷ []))
      rs
    × IsSorted rs
    × ((k : Bytes) → find k rs ≡ first_hit k (mem_run ∷ old_run ∷ []))
find-merged_example =
    find-merged list_cursor 0 (mem_run ∷ old_run ∷ []) (mem_run ∷ old_run ∷ []) both-EmitAll
      (mem_run-IsSorted, (old_run-IsSorted, tt))
