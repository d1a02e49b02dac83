-- ===== src/Sql/Engine/Invariant.antt =====
-- sql/engine.go: the statements on rows, one by one, and Exec.
use db.Prelude.{ℕ, suc, ◌≡◌, refl, Bool, List, [], ◌∷◌, Bytes, if◌then◌else◌, length, ◌==◌}
use db.Storage.Run.{Rec}
use db.Storage.Log.{Io}
use db.Storage.Kv.{mode_insert, mode_update}
use db.Table.Schema.{Schema, Row}
use db.Table.Db
use db.Table.Db.{insert, update}
use db.Sql.Stmt.{StmtSelect, ExprAssign, StmtInsert, StmtUpdate, StmtDelete}
use db.Sql.Engine.{
  SchemaJson, Engine, Result, ok, error, panic, stuck, lift, duplicate_key, wrong_count,
}
use db.Sql.Engine.Exec.{
  of_store, counted, matching_rows, exec_select, exec_insert, update_rows, exec_update, delete_rows,
  exec_delete, new_vals, assign, header_from, select_rows, project_row, typed_row, targets,
}
use db.Sql.Engine.Catalog.{IsPlain}
use db.Sql.Engine.Follows.{Ensures, set_row-Follows, delete-Follows}
use db.Sql.Engine.Known.{Any, Any-Post, bind-Ensures, read-Ensures, get_schema-Ensures}

module _ (json : SchemaJson) (runs : List (List Rec)) where
  pub lift-Ensures {ℓ} : {A : Type ℓ} (r : Result A) → Ensures json runs Any (lift r)
  lift-Ensures r = read-Ensures json runs (λ e. r)

  module _ (schema : Schema) (plain : IsPlain schema.table) where
    insert-Ensures :
        (io : Io) (row : Row) → Ensures json runs Any (λ e. of_store e (insert io e.kv schema row))
    unfolding insert
    insert-Ensures io row = record {
      call = λ e v. (set_row-Follows json runs schema plain io row mode_insert e v, Any-Post _);
    }

    update-Ensures :
        (io : Io) (row : Row) → Ensures json runs Any (λ e. of_store e (update io e.kv schema row))
    unfolding update
    update-Ensures io row = record {
      call = λ e v. (set_row-Follows json runs schema plain io row mode_update e v, Any-Post _);
    }

    counted-state : (m : ℕ) (r : Engine × Result Bool) → (counted m r).0 ≡ r.0
    counted-state m (e, ok b) = refl
    counted-state m (e, error x) = refl
    counted-state m (e, panic) = refl
    counted-state m (e, stuck) = refl

    delete-Ensures :
        (io : Io) (row : Row) (m : ℕ)
        → Ensures json runs Any (λ e. counted m (of_store e (Db.delete io e.kv schema row)))
    delete-Ensures io row m = record {
      call = λ e v. (
        rw (counted-state m (of_store e (Db.delete io e.kv schema row)))
            (delete-Follows json runs schema plain io row e v),
        Any-Post _,
      );
    }

    update_rows-Ensures :
        (ios : ℕ → Io) (n : ℕ) (asns : List ExprAssign) (idxs : List ℕ) (rows : List Row)
        → Ensures json runs Any (update_rows ios n schema asns idxs rows)
    unfolding update_rows
    update_rows-Ensures ios n asns idxs [] = lift-Ensures (ok tt)
    update_rows-Ensures ios n asns idxs (row ∷ rows) =
        bind-Ensures json runs (lift-Ensures (new_vals schema row asns idxs)) (λ vals _.
          bind-Ensures json runs (lift-Ensures (assign row idxs vals)) (λ row' _.
            bind-Ensures json runs (update-Ensures (ios n) row')
              (λ done _. update_rows-Ensures ios (suc n) asns idxs rows)))

    delete_rows-Ensures :
        (ios : ℕ → Io) (n m : ℕ) (rows : List Row)
        → Ensures json runs Any (delete_rows ios n m schema rows)
    unfolding delete_rows
    delete_rows-Ensures ios n m [] = lift-Ensures (ok m)
    delete_rows-Ensures ios n m (row ∷ rows) =
        bind-Ensures json runs (delete-Ensures (ios n) row m)
          (λ done _. delete_rows-Ensures ios (suc n) (if done then suc m else m) rows)

  pub exec_select-Ensures :
      (label : ℕ → Bytes) (fuel : ℕ) (s : StmtSelect)
      → Ensures json runs Any (exec_select json label fuel s)
  unfolding exec_select
  exec_select-Ensures label fuel s =
      bind-Ensures json runs (get_schema-Ensures json runs s.table) (λ schema p.
        bind-Ensures json runs (lift-Ensures (header_from label schema 0 s.cols)) (λ header _.
          bind-Ensures json runs
            (read-Ensures json runs
              (λ e. select_rows (project_row schema s.cols) fuel e.kv schema s.cond))
            (λ rows _. lift-Ensures (ok (header, rows)))))

  pub exec_insert-Ensures :
      (io : Io) (s : StmtInsert) → Ensures json runs Any (exec_insert json io s)
  unfolding exec_insert
  exec_insert-Ensures io s =
      bind-Ensures json runs (get_schema-Ensures json runs s.table) (λ schema p.
        bind-Ensures json runs
          (read-Ensures json runs
            (λ e. if length s.value == length schema.cols then ok tt else error wrong_count))
          (λ _ _.
            bind-Ensures json runs (insert-Ensures schema p io (typed_row s.value schema.cols))
              (λ done _. lift-Ensures (if done then ok 1 else error duplicate_key))))

  pub exec_update-Ensures :
      (ios : ℕ → Io) (fuel : ℕ) (s : StmtUpdate)
      → Ensures json runs Any (exec_update json ios fuel s)
  unfolding exec_update
  exec_update-Ensures ios fuel s =
      bind-Ensures json runs (get_schema-Ensures json runs s.table) (λ schema p.
        bind-Ensures json runs (lift-Ensures (targets schema s.value)) (λ idxs _.
          bind-Ensures json runs
            (read-Ensures json runs (λ e. matching_rows fuel e.kv schema s.cond))
            (λ rows _.
              bind-Ensures json runs (update_rows-Ensures schema p ios 0 s.value idxs rows)
                (λ _ _. lift-Ensures (ok (length rows))))))

  pub exec_delete-Ensures :
      (ios : ℕ → Io) (fuel : ℕ) (s : StmtDelete)
      → Ensures json runs Any (exec_delete json ios fuel s)
  unfolding exec_delete
  exec_delete-Ensures ios fuel s =
      bind-Ensures json runs (get_schema-Ensures json runs s.table) (λ schema p.
        bind-Ensures json runs (read-Ensures json runs (λ e. matching_rows fuel e.kv schema s.cond))
          (λ rows _. delete_rows-Ensures schema p ios 0 0 rows))
