-- ===== src/Sql/Engine/Writes.antt =====
-- sql/engine.go (execCreateTable, execInsert): what a statement that writes leaves in the store.
use db.Prelude.{
  ◌≡◌, refl, ap, ◌∙◌, true, false, List, [], some, Bytes, arith, length, ◌==◌, if◌then◌else◌, ℕ,
}
use db.Bytes.Order.{cmp, is_eq, cmp_refl}
use db.Storage.Run.{Rec}
use db.Storage.Log.{Io, succeeds}
use db.Storage.Kv.{Kv, Done, done, failed, found, get, set_key, set_ex, mode_upsert, mode_insert}
use db.Storage.Kv.Lookup.{IsValid}
use db.Storage.Kv.Write
use db.Storage.Kv.Write.{allowed, get-set_ex, set_ex-IsValid, set_ex-refused}
use db.Table.Schema.{Schema, encode_key, encode_val}
use db.Table.Db.{insert, set_row}
use db.Sql.Stmt.{StmtCreatTable, StmtInsert}
use db.Sql.Engine.{
  SchemaJson, Engine, Result, ok, error, table_exists, duplicate_key, after, lift, schema_key,
  cached, with_table, get_schema, is_found, free, install, create_table, pkey_indices, no_pkey,
  stored,
}
use db.Sql.Engine.Exec.{exec_insert, typed_row}

module _ (json : SchemaJson) where
  read_back :
      (name : Bytes) (schema : Schema) (blob : Bytes) (kv : Kv)
      → get kv (schema_key name) ≡ found blob
      → json.unmarshal blob ≡ some schema
      → (get_schema json name (record { kv = kv; tables = [] })).1 ≡ ok schema
  unfolding get_schema cached
  read_back name schema blob kv g u = rw (get_schema, cached, g, u) refl

  refused :
      (io : Io) (s : StmtCreatTable) (e : Engine) (blob : Bytes)
      → get e.kv (schema_key s.table) ≡ found blob
      → create_table json io s e ≡ (e, error table_exists)
  unfolding create_table free
  refused io s e blob g = rw g refl

module _ (json : SchemaJson) (e : Engine) (rs : List Rec) (runs : List (List Rec))
    (v : IsValid e.kv rs runs) where
  upsert_allowed : (k : Bytes) → allowed mode_upsert (Write.is_found (get e.kv k)) ≡ true
  upsert_allowed k = ground arith

  install-written :
      (name : Bytes) (schema : Schema) (blob : Bytes)
      → ((install succeeds name schema blob e).1 ≡ ok tt)
        × (get (install succeeds name schema blob e).0.kv (schema_key name) ≡ found blob)
  unfolding install set_key
  install-written name schema blob =
      let k = schema_key name in
      let (h, _) = set_ex-IsValid e.kv rs runs v k blob mode_upsert (upsert_allowed k) in
      let g = get-set_ex e.kv rs runs v k blob k mode_upsert (upsert_allowed k) in
      written (set_ex succeeds e.kv k blob mode_upsert) h (g ∙ (rw (cmp_refl k) refl))
    where
      written :
          (r : Kv × Done)
          → r.1 ≡ done true
          → get r.0 (schema_key name) ≡ found blob
          → ((after {0, 0} (stored e r) (λ _ e. (with_table name schema e, ok tt))).1 ≡ ok tt)
            × (get
                  (after {0, 0} (stored e r) (λ _ e. (with_table name schema e, ok tt))).0.kv
                  (schema_key name)
                ≡ found blob)
      written (kv, done b) h g = (refl, g)
      written (kv, failed) h g = cc

  create_table-install :
      (s : StmtCreatTable) (pkey : List ℕ) (blob : Bytes)
      → is_found (get e.kv (schema_key s.table)) ≡ false
      → pkey_indices (no_pkey s) s.pkey ≡ ok pkey
      → json.marshal (record (no_pkey s) { pkey = pkey }) ≡ some blob
      → create_table json succeeds s e
        ≡ install succeeds s.table (record (no_pkey s) { pkey = pkey }) blob e
  unfolding create_table free
  create_table-install s pkey blob absent p m = rw (absent, p, m) refl

  -- In a valid engine with no table of that name, where the primary key names columns, the schema marshals, the bytes unmarshal to it, and the
  -- log write succeeds: CREATE TABLE succeeds, an engine with an empty cache reads the
  -- schema back from the store, and another CREATE TABLE of that name is refused and changes nothing.
  pub create_table-known :
      (s : StmtCreatTable) (pkey : List ℕ) (blob : Bytes)
      → is_found (get e.kv (schema_key s.table)) ≡ false
      → pkey_indices (no_pkey s) s.pkey ≡ ok pkey
      → json.marshal (record (no_pkey s) { pkey = pkey }) ≡ some blob
      → json.unmarshal blob ≡ some (record (no_pkey s) { pkey = pkey })
      → let (e', r) = create_table json succeeds s e in
        (r ≡ ok tt)
        × ((get_schema json s.table (record e' { tables = [] })).1
            ≡ ok (record (no_pkey s) { pkey = pkey }))
        × ((io : Io) (again : StmtCreatTable)
            → again.table ≡ s.table
            → create_table json io again e' ≡ (e', error table_exists))
  create_table-known s pkey blob absent p m u =
      let schema : Schema = record (no_pkey s) { pkey = pkey } in
      let (h, g) = install-written s.table schema blob in
      rw (create_table-install s pkey blob absent p m) (
        h,
        read_back json s.table schema blob (install succeeds s.table schema blob e).0.kv g u,
        λ io again same. refused json io again (install succeeds s.table schema blob e).0 blob (
            ap (λ (n : Bytes). get (install succeeds s.table schema blob e).0.kv (schema_key n))
              same
            ∙ g),
      )

-- What INSERT reports of a write.
abbrev reported : Engine → Kv × Done → Engine × Result ℕ
reported e r = after {0, 0} (stored e r) (λ done. lift (if done then ok 1 else error duplicate_key))

-- INSERT on a table that the engine knows.
module _ (json : SchemaJson) (e e' : Engine) (rs : List Rec) (runs : List (List Rec))
    (v : IsValid e'.kv rs runs) (s : StmtInsert) (schema : Schema) (key val : Bytes)
    (known : get_schema json s.table e ≡ (e', ok schema))
    (counted : length s.value ≡ length schema.cols)
    (k : encode_key schema (typed_row s.value schema.cols) ≡ some key)
    (w : encode_val schema (typed_row s.value schema.cols) ≡ some val) where
  insert-set_ex :
      (io : Io) → exec_insert json io s e ≡ reported e' (set_ex io e'.kv key val mode_insert)
  unfolding exec_insert insert set_row
  insert-set_ex io =
      let same : (length s.value == length schema.cols) ≡ true = ground arith in
      rw (known, same, k, w) refl

  -- Where a row with the new row's key is there, INSERT reports a duplicate and changes nothing but the cache.
  insert-duplicate :
      (io : Io)
      → Write.is_found (get e'.kv key) ≡ true
      → exec_insert json io s e ≡ (e', error duplicate_key)
  insert-duplicate io h =
      insert-set_ex io
      ∙ ap (reported e') (set_ex-refused e'.kv rs runs v io key val mode_insert (ground arith))

  inserted : (r : Kv × Done) → r.1 ≡ done true → reported e' r ≡ (record e' { kv = r.0 }, ok 1)
  inserted (kv, done b) h = let same : b ≡ true = cc in rw same refl
  inserted (kv, failed) h = cc

  -- In a valid engine that knows the table, for as many values as columns and a row that encodes: INSERT reports a duplicate exactly if
  -- the row's key is there, and then leaves the store; otherwise, with a log write that succeeds, it reports one row, the key
  -- has the row's value, and every other key reads as before.
  pub get-exec_insert :
      ((io : Io)
        → Write.is_found (get e'.kv key) ≡ true
        → exec_insert json io s e ≡ (e', error duplicate_key))
      × (Write.is_found (get e'.kv key) ≡ false
          → ((exec_insert json succeeds s e).1 ≡ ok 1)
            × ((j : Bytes)
                → get (exec_insert json succeeds s e).0.kv j
                  ≡ (if is_eq (cmp key j) then found val else get e'.kv j)))
  get-exec_insert = (insert-duplicate, absent)
    where
      absent :
          Write.is_found (get e'.kv key) ≡ false
          → ((exec_insert json succeeds s e).1 ≡ ok 1)
            × ((j : Bytes)
                → get (exec_insert json succeeds s e).0.kv j
                  ≡ (if is_eq (cmp key j) then found val else get e'.kv j))
      absent h =
          let may : allowed mode_insert (Write.is_found (get e'.kv key)) ≡ true = ground arith in
          let (d, _) = set_ex-IsValid e'.kv rs runs v key val mode_insert may in
          rw (insert-set_ex succeeds ∙ inserted (set_ex succeeds e'.kv key val mode_insert) d)
            (refl, λ j. get-set_ex e'.kv rs runs v key val j mode_insert may)
