-- ===== src/Sql/Engine/Sound.antt =====
-- sql/engine.go (ExecStmt, execCreateTable, Exec): every statement leaves a sound engine.
use db.Prelude.{ℕ, ◌≡◌, refl, ◌∙◌, sym, ap, false, List, Bytes, ◌+◌, ◌*◌, length}
use db.Bytes.Order.{cmp, is_eq}
use db.Storage.Run.{Rec}
use db.Storage.Log.{Io}
use db.Storage.Kv.{Kv, Done, done, failed, get, set_key, mode_upsert}
use db.Storage.Kv.Kept.{Keeps, set_ex-Keeps, set_ex_failed}
use db.Table.Schema.{Schema}
use db.Sql.Stmt.{StmtCreatTable, Stmt}
use db.Sql.Engine.{
  SchemaJson, Engine, Result, ok, error, panic, stuck, Method, after, ◌>>=◌, stored, schema_key,
  cached, with_table, free, install, create_table, pkey_indices, no_pkey, of_option, not_marshalled,
}
use db.Sql.Engine.Exec.{exec_stmt, rows_affected, parsed, exec}
use db.Sql.Parser.Statement
use db.Sql.Parser.Statement.{parse_stmt}
use db.Sql.Parser.Statement.Names.{Gives, CreatesPlain, parse_stmt-Gives}
use db.Sql.Engine.Catalog.{IsPlain}
use db.Sql.Engine.Follows.{IsSound, Follows, Follows-IsSound, Ensures, get_schema_lem, schema_in}
use db.Sql.Engine.Known.{Any, bind-Ensures, schema_cons}
use db.Sql.Engine.Invariant.{
  lift-Ensures, exec_select-Ensures, exec_insert-Ensures, exec_update-Ensures, exec_delete-Ensures,
}

-- Every statement but CREATE TABLE.
abbrev pub IsOnRows : Stmt → Type 0
IsOnRows (Stmt.create_table s) = ⊥
IsOnRows _ = Unit

module _ (json : SchemaJson) (runs : List (List Rec)) where
  module _ (label : ℕ → Bytes) (ios : ℕ → Io) (fuel : ℕ) where
    stmt-Ensures : (s : Stmt) → IsOnRows s → Ensures json runs Any (exec_stmt json label ios fuel s)
    unfolding exec_stmt
    stmt-Ensures (Stmt.create_table s) h = absurd h
    stmt-Ensures (Stmt.select s) h =
        bind-Ensures json runs (exec_select-Ensures json runs label fuel s)
          (λ r _. lift-Ensures json runs _)
    stmt-Ensures (Stmt.insert s) h =
        bind-Ensures json runs (exec_insert-Ensures json runs (ios 0) s)
          (λ r _. lift-Ensures json runs _)
    stmt-Ensures (Stmt.update s) h =
        bind-Ensures json runs (exec_update-Ensures json runs ios fuel s)
          (λ r _. lift-Ensures json runs _)
    stmt-Ensures (Stmt.delete s) h =
        bind-Ensures json runs (exec_delete-Ensures json runs ios fuel s)
          (λ r _. lift-Ensures json runs _)

    -- In a sound engine, whatever each write to the log meets and whatever the statement answers, a SELECT, INSERT, UPDATE
    -- or DELETE leaves a sound engine in which every reserved key of the catalog reads as before.
    pub exec_stmt-Follows :
        (s : Stmt) (e : Engine)
        → IsOnRows s
        → IsSound json runs e
        → Follows json runs e (exec_stmt json label ios fuel s e).0
    exec_stmt-Follows s e h v = ((stmt-Ensures s h).call e v).0

  -- A method that keeps the engine sound.
  record Steady {ℓ} {A : Type ℓ} (m : Method A) : Type ℓ where
    call : (e : Engine) → IsSound json runs e → IsSound json runs (m e).0

  after-IsSound {ℓ κ} :
      {A : Type ℓ} {B : Type κ} (r : Engine × Result A) (f : A → Method B)
      → IsSound json runs r.0
      → ((a : A) → Steady (f a))
      → IsSound json runs (after r f).0
  after-IsSound (e, ok a) f h k = (k a).call e h
  after-IsSound (e, error x) f h k = h
  after-IsSound (e, panic) f h k = h
  after-IsSound (e, stuck) f h k = h

  followed :
      (label : ℕ → Bytes) (ios : ℕ → Io) (fuel : ℕ) (s : Stmt)
      → IsOnRows s
      → Steady (exec_stmt json label ios fuel s)
  followed label ios fuel s h = record {
    call = λ e v.
        Follows-IsSound json runs e (exec_stmt json label ios fuel s e).0
          (exec_stmt-Follows label ios fuel s e h v);
  }

  bind-Steady {ℓ κ} :
      {A : Type ℓ} {B : Type κ} {m : Method A} {f : A → Method B}
      → Steady m
      → ((a : A) → Steady (f a))
      → Steady (m >>= f)
  bind-Steady {m} {f} h k = record { call = λ e v. after-IsSound (m e) f (h.call e v) k }

  read-Steady {ℓ} : {A : Type ℓ} (r : Engine → Result A) → Steady (λ e. (e, r e))
  read-Steady r = record { call = λ e v. v }

  -- The engine with what Set of a schema leaves, by its result.
  module _ (name : Bytes) (schema : Schema) (plain : IsPlain schema.table) (e : Engine)
      (v : IsSound json runs e) where
    abbrev Others : Bytes → Type 0
    Others j = is_eq (cmp (schema_key name) j) ≡ false

    cmp_keys : (other : Bytes) → cmp (schema_key name) (schema_key other) ≡ cmp name other
    unfolding cmp
    cmp_keys other = refl

    written :
        (r : Kv × Done)
        → Keeps Others runs e.kv r.0
        → (r.1 ≡ failed → (j : Bytes) → get r.0 j ≡ get e.kv j)
        → IsSound json runs (after {0, 0} (stored e r) (λ _ e. (with_table name schema e, ok tt))).0
    unfolding cached
    written (kv, done b) k f = record {
      run = k.run;
      valid = k.valid;
      plain = λ other t h.
          schema_cons json runs schema t (is_eq (cmp name other)) (cached other e.tables)
            (get kv (schema_key other)) plain
            (λ differs found. v.plain other t (
              get_schema_lem json runs other e
              ∙ ap (schema_in json runs (cached other e.tables))
                  (sym (k.same (schema_key other) (ap is_eq (cmp_keys other) ∙ differs)))
              ∙ found))
            (sym (get_schema_lem json runs other (with_table name schema (record e { kv = kv })))
              ∙ h);
    }
    written (kv, failed) k f = record {
      run = k.run;
      valid = k.valid;
      plain = λ other t h. v.plain other t (
          get_schema_lem json runs other e
          ∙ ap (schema_in json runs (cached other e.tables)) (sym (f refl (schema_key other)))
          ∙ sym (get_schema_lem json runs other (record e { kv = kv }))
          ∙ h);
    }

    install_sound : (io : Io) (blob : Bytes) → IsSound json runs (install io name schema blob e).0
    unfolding install set_key
    install_sound io blob =
        written (set_key io e.kv (schema_key name) blob)
          (set_ex-Keeps Others runs e.kv v.run v.valid io (schema_key name) (λ j h. h) blob
            mode_upsert)
          (λ f j. set_ex_failed io e.kv (schema_key name) blob j mode_upsert f)

  create_table-Steady :
      (io : Io) (s : StmtCreatTable) → IsPlain s.table → Steady (create_table json io s)
  unfolding create_table free
  create_table-Steady io s p = bind-Steady (read-Steady (λ e. (free s.table e).1)) (λ _.
      bind-Steady (read-Steady (λ e. pkey_indices (no_pkey s) s.pkey)) (λ pkey.
        bind-Steady
          (read-Steady
            (λ e. of_option not_marshalled (json.marshal (record (no_pkey s) { pkey = pkey }))))
          (λ blob. record {
            call = λ e v. install_sound s.table (record (no_pkey s) { pkey = pkey }) p e v io blob;
          })))

  stmt-Steady :
      (label : ℕ → Bytes) (ios : ℕ → Io) (fuel : ℕ) (s : Stmt)
      → CreatesPlain s
      → Steady (exec_stmt json label ios fuel s)
  unfolding exec_stmt
  stmt-Steady label ios fuel (Stmt.create_table s) p =
      bind-Steady (create_table-Steady (ios 0) s p) (λ _. read-Steady (λ e. ok (rows_affected 0)))
  stmt-Steady label ios fuel (Stmt.select s) p = followed label ios fuel (Stmt.select s) tt
  stmt-Steady label ios fuel (Stmt.insert s) p = followed label ios fuel (Stmt.insert s) tt
  stmt-Steady label ios fuel (Stmt.update s) p = followed label ios fuel (Stmt.update s) tt
  stmt-Steady label ios fuel (Stmt.delete s) p = followed label ios fuel (Stmt.delete s) tt

  -- Whatever the text, each write to the log and the answer are, Exec leaves a sound engine: valid on the same SSTables, and
  -- with plain names in the catalog.
  pub exec-IsSound :
      (label : ℕ → Bytes) (ios : ℕ → Io) (fuel : ℕ) (sql : Bytes) (e : Engine)
      → IsSound json runs e
      → IsSound json runs (exec json label ios fuel sql e).0
  unfolding exec
  exec-IsSound label ios fuel sql e v =
      run (parse_stmt (16 * length sql + 13) sql) (parse_stmt-Gives (16 * length sql + 13) sql)
    where
      run :
          (r : Statement.Result Stmt)
          → Gives CreatesPlain r
          → IsSound json runs (after {0, 0} (e, parsed r) (exec_stmt json label ios fuel)).0
      run (Statement.done s q) p = (stmt-Steady label ios fuel s p).call e v
      run (Statement.refused x) p = v
      run Statement.stuck p = v
