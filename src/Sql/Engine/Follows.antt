-- ===== src/Sql/Engine/Follows.antt =====
-- sql/engine.go: what a call leaves of the store and of the catalog.
use db.Prelude.{◌≡◌, refl, ◌∙◌, sym, ap, subst, false, List, Option, none, some, arith, Bytes}
use db.Bytes.Order.{cmp, is_eq}
use db.Storage.Run.{Rec}
use db.Storage.Log.{Io}
use db.Storage.Kv.{Kv, Got, missing, found, get, UpdateMode, Done, failed, done, set_ex}
use db.Storage.Kv
use db.Storage.Kv.Lookup.{IsValid}
use db.Storage.Kv.Kept.{Keeps, Keeps-refl, Keeps-trans, set_ex-Keeps, del-Keeps}
use db.Table.Schema.{Schema, Row, encode_key, encode_val}
use db.Table.Db.{set_row, delete}
use db.Sql.Engine.{
  SchemaJson, Engine, ExecError, Result, ok, error, panic, stuck, Method, after, schema_key, cached,
  with_table, get_schema, stored, lift, read_schema,
}
use db.Sql.Engine
use db.Sql.Engine.Exec.{of_store}
use db.Sql.Engine.Catalog.{IsPlain, encode_key-IsPlain, cmp-schema_key, >>=-eq-some}

abbrev pub IsCatalogKey : Bytes → Type 0
IsCatalogKey j = (name : Bytes) × (j ≡ schema_key name)

abbrev pub Post {ℓ} : {A : Type ℓ} → (A → Type 0) → Result A → Type 0
Post Q (ok a) = Q a
Post Q _ = Unit

module _ (json : SchemaJson) (runs : List (List Rec)) where
  abbrev pub KnownPlain : Engine → Type 0
  KnownPlain e = (name : Bytes) (s : Schema) → (get_schema json name e).1 ≡ ok s → IsPlain s.table

  -- The store is valid, and every table that the engine knows has a plain name.
  pub record IsSound (e : Engine) : Type 0 where
    pub run : List Rec
    pub valid : IsValid e.kv run runs
    pub plain : KnownPlain e

  -- The second engine is sound and has the catalog of the first.
  pub record Follows (e e' : Engine) : Type 0 where
    pub keeps : Keeps IsCatalogKey runs e.kv e'.kv
    pub plain : KnownPlain e'

  pub Follows-IsSound : (e e' : Engine) → Follows e e' → IsSound e'
  Follows-IsSound e e' f = record { run = f.keeps.run; valid = f.keeps.valid; plain = f.plain }

  pub Follows-refl : (e : Engine) → IsSound e → Follows e e
  Follows-refl e s = record {
    keeps = Keeps-refl IsCatalogKey runs e.kv s.run s.valid;
    plain = s.plain;
  }

  pub Follows-trans : (a b c : Engine) → Follows a b → Follows b c → Follows a c
  Follows-trans a b c f g = record {
    keeps = Keeps-trans IsCatalogKey runs a.kv b.kv c.kv f.keeps g.keeps;
    plain = g.plain;
  }

  -- In a sound engine a method leaves one that follows it, and a result with Q.
  pub record Ensures {ℓ} {A : Type ℓ} (Q : A → Type 0) (m : Method A) : Type ℓ where
    pub call : (e : Engine) → IsSound e → Follows e (m e).0 × Post Q (m e).1

  -- What get_schema answers, by the cache and the store.
  unfoldable pub schema_in : Option Schema → Got → Result Schema
  schema_in (some s) g = ok s
  schema_in none Kv.error = error Engine.store_failed
  schema_in none missing = error Engine.table_not_found
  schema_in none (found val) = elim (json.unmarshal val) [
    | none ↦ error Engine.bad_schema
    | some s ↦ ok s
  ]

  pub get_schema_lem :
      (name : Bytes) (e : Engine)
      → (get_schema json name e).1 ≡ schema_in (cached name e.tables) (get e.kv (schema_key name))
  unfolding get_schema schema_in
  get_schema_lem name e = ground arith

  -- The store reads the reserved keys as before, and the cache is the same.
  pub store-Follows :
      (e : Engine) (kv : Kv)
      → IsSound e
      → Keeps IsCatalogKey runs e.kv kv
      → Follows e (record e { kv = kv })
  store-Follows e kv s k = record {
    keeps = k;
    plain = λ name schema h. s.plain name schema (
        get_schema_lem name e
        ∙ ap (schema_in (cached name e.tables)) (sym (k.same (schema_key name) (name, refl)))
        ∙ sym (get_schema_lem name (record e { kv = kv }))
        ∙ h);
  }

  stored-Follows :
      (e : Engine) (r : Kv × Done)
      → IsSound e
      → Keeps IsCatalogKey runs e.kv r.0
      → Follows e (stored e r).0
  stored-Follows e (kv, done b) s k = store-Follows e kv s k
  stored-Follows e (kv, failed) s k = store-Follows e kv s k

  of_store-Follows :
      (e : Engine) (o : Option (Kv × Done))
      → IsSound e
      → ((r : Kv × Done) → o ≡ some r → Keeps IsCatalogKey runs e.kv r.0)
      → Follows e (of_store e o).0
  of_store-Follows e none s h = Follows-refl e s
  of_store-Follows e (some r) s h = stored-Follows e r s (h r refl)

  module _ (schema : Schema) (plain : IsPlain schema.table) (io : Io) (row : Row) where
    row_key :
        (key : Bytes)
        → encode_key schema row ≡ some key
        → (j : Bytes) → IsCatalogKey j
        → is_eq (cmp key j) ≡ false
    row_key key k j (name, e) =
        rw e (cmp-schema_key key name (encode_key-IsPlain schema row key plain k))

    set_row-Keeps :
        (mode : UpdateMode) (e : Engine) (r : Kv × Done)
        → IsSound e
        → set_row mode io e.kv schema row ≡ some r
        → Keeps IsCatalogKey runs e.kv r.0
    unfolding set_row
    set_row-Keeps mode e r s h =
        let (key, k, h') = >>=-eq-some (encode_key schema row) _ h in
        let (val, v, h'') = >>=-eq-some (encode_val schema row) _ h' in
        subst
          (λ (o : Option (Kv × Done)). elim o [
            | none ↦ Unit
            | some q ↦ Keeps IsCatalogKey runs e.kv q.0
          ])
          h'' (set_ex-Keeps IsCatalogKey runs e.kv s.run s.valid io key (row_key key k) val mode)

    delete-Keeps :
        (e : Engine) (r : Kv × Done)
        → IsSound e
        → delete io e.kv schema row ≡ some r
        → Keeps IsCatalogKey runs e.kv r.0
    unfolding delete
    delete-Keeps e r s h =
        let (key, k, h') = >>=-eq-some (encode_key schema row) _ h in
        subst
          (λ (o : Option (Kv × Done)). elim o [
            | none ↦ Unit
            | some q ↦ Keeps IsCatalogKey runs e.kv q.0
          ])
          h' (del-Keeps IsCatalogKey runs e.kv s.run s.valid io key (row_key key k))

    pub set_row-Follows :
        (mode : UpdateMode) (e : Engine)
        → IsSound e
        → Follows e (of_store e (set_row mode io e.kv schema row)).0
    set_row-Follows mode e s =
        of_store-Follows e (set_row mode io e.kv schema row) s (λ r h. set_row-Keeps mode e r s h)

    pub delete-Follows :
        (e : Engine) → IsSound e → Follows e (of_store e (delete io e.kv schema row)).0
    delete-Follows e s =
        of_store-Follows e (delete io e.kv schema row) s (λ r h. delete-Keeps e r s h)
