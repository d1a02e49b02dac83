-- ===== src/Sql/Engine.antt =====
-- sql/engine.go: the catalog and the state of the executor. A table's schema is kept as JSON under a
-- reserved key of the store, and in a cache. encoding/json is the argument `SchemaJson`.
pub mod Exec
pub mod Catalog
pub mod Follows
pub mod Known
pub mod Invariant
pub mod Sound
pub mod Walk
pub mod Selected
pub mod Update
pub mod Writes
use db.Prelude.{
  ℕ, suc, Bool, true, false, List, [], ◌∷◌, ◌++◌, Option, none, some, Bytes, if◌then◌else◌,
}
use db.Bytes.Order.{cmp, is_eq}
use db.Storage.Kv.{Kv, Got, missing, found, get, Done, done}
use db.Storage.Kv
use db.Storage.Log.{Io}
use db.Table.Schema.{Column, Schema, col_index}
use db.Sql.Stmt.{StmtCreatTable}
use db.Sql.Eval.{EvalError}
use db.Sql.Eval
use db.Sql.Parser.Statement.{StmtError}

-- Unmarshal gives what it leaves in the schema if it returns nil.
pub record SchemaJson : Type 0 where
  pub marshal : Schema → Option Bytes
  pub unmarshal : Bytes → Option Schema

pub record Engine : Type 0 where
  pub kv : Kv
  pub tables : List (Bytes × Schema)

pub data ExecError : Type 0 where
  store_failed table_not_found bad_schema table_exists pkey_not_column not_marshalled : ExecError
  no_such_column cannot_select wrong_count duplicate_key pkey_assigned type_mismatch : ExecError
  bad_statement : StmtError → ExecError
  bad_value : EvalError → ExecError
  -- The error of a DELETE, with the number of rows that were deleted before.
  deleted_before : ℕ → ExecError → ExecError

-- stuck: a loop ran out of fuel, or goes on behind an error of the cursor, which it drops.
pub data Result {ℓ} (A : Type ℓ) : Type ℓ where
  ok : A → Result A
  error : ExecError → Result A
  panic stuck : Result A

abbrev pub bind {ℓ κ} : {A : Type ℓ} {B : Type κ} → Result A → (A → Result B) → Result B
bind (ok a) f = f a
bind (error e) f = error e
bind panic f = panic
bind stuck f = stuck

-- A method of the engine: its state after the call, and the result.
abbrev pub Method {ℓ} : Type ℓ → Type ℓ
Method A = Engine → Engine × Result A

abbrev pub after {ℓ κ} :
    {A : Type ℓ} {B : Type κ} → Engine × Result A → (A → Method B) → Engine × Result B
after (e, ok a) f = f a e
after (e, error x) f = (e, error x)
after (e, panic) f = (e, panic)
after (e, stuck) f = (e, stuck)

infixl 5 ◌>>=◌ ◌>>◌
abbrev pub ◌>>=◌ {ℓ κ} : {A : Type ℓ} {B : Type κ} → Method A → (A → Method B) → Method B
◌>>=◌ m f e = after (m e) f

abbrev pub ◌>>◌ {ℓ κ} : {A : Type ℓ} {B : Type κ} → Method A → Method B → Method B
m >> k = m >>= λ _. k

abbrev pub lift {ℓ} : {A : Type ℓ} → Result A → Method A
lift r e = (e, r)

abbrev pub guard : Bool → ExecError → Method (Unit {0})
guard b x e = (e, if b then ok tt else error x)

abbrev pub of_option {ℓ} : {A : Type ℓ} → ExecError → Option A → Result A
of_option x none = error x
of_option x (some a) = ok a

abbrev pub of_eval : {A : Type 0} → Eval.Result A → Result A
of_eval (Eval.ok a) = ok a
of_eval (Eval.error EvalError.panic) = panic
of_eval (Eval.error e) = error (bad_value e)

-- What a call on the store leaves, and whether it wrote.
abbrev pub stored : Engine → Kv × Done → Engine × Result Bool
stored e (kv, done wrote) = (record e { kv = kv }, ok wrote)
stored e (kv, Kv.failed) = (record e { kv = kv }, error store_failed)

-- schemaKeyPrefix + name
abbrev pub schema_key : Bytes → Bytes
schema_key name = b'@' ∷ b's' ∷ b'c' ∷ b'h' ∷ b'e' ∷ b'm' ∷ b'a' ∷ b'_' ∷ name

-- e.tables[name]
unfoldable pub cached : Bytes → List (Bytes × Schema) → Option Schema
cached name [] = none
cached name ((n, s) ∷ tables) =
    let rest = cached name tables in if is_eq (cmp n name) then some s else rest

-- e.tables[name] = schema
abbrev pub with_table : Bytes → Schema → Engine → Engine
with_table name schema e = record e { tables = (name, schema) ∷ e.tables }

abbrev pub read_schema : Bytes → Engine → Option Schema → Engine × Result Schema
read_schema name e none = (e, error bad_schema)
read_schema name e (some s) = (with_table name s e, ok s)

unfoldable pub get_schema : SchemaJson → Bytes → Method Schema
get_schema json name e = elim (cached name e.tables) [
  | some s ↦ (e, ok s)
  | none ↦ elim (get e.kv (schema_key name)) [
    | Kv.error ↦ (e, error store_failed)
    | missing ↦ (e, error table_not_found)
    | found val ↦ read_schema name e (json.unmarshal val)
  ]
]

-- The loop over the primary key; ColIndex reads the columns alone.
unfoldable pub pkey_indices : Schema → List Bytes → Result (List ℕ)
pkey_indices schema [] = ok []
pkey_indices schema (name ∷ names) =
    bind (of_option pkey_not_column (col_index schema name))
      (λ idx. bind (pkey_indices schema names) (λ rest. ok (idx ∷ rest)))

abbrev pub is_found : Got → Bool
is_found (found val) = true
is_found _ = false

abbrev pub no_pkey : StmtCreatTable → Schema
no_pkey s = record { table = s.table; cols = s.cols; pkey = [] }

-- _, ok, _ := e.DB.KV.Get: its error counts as a miss.
unfoldable pub free : Bytes → Method (Unit {0})
free name e = (e, if is_found (get e.kv (schema_key name)) then error table_exists else ok tt)

-- e.DB.KV.Set of the schema, and the cache.
unfoldable pub install : Io → Bytes → Schema → Bytes → Method (Unit {0})
install io name schema blob = do
  λ e. stored e (Kv.set_key io e.kv (schema_key name) blob)
  λ e. (with_table name schema e, ok tt)

unfoldable pub create_table : SchemaJson → Io → StmtCreatTable → Method (Unit {0})
create_table json io s = do
  free s.table
  pkey ← lift (pkey_indices (no_pkey s) s.pkey)
  let schema = record (no_pkey s) { pkey = pkey }
  blob ← lift (of_option not_marshalled (json.marshal schema))
  install io s.table schema blob
