-- ===== src/Sql/Engine/Known.antt =====
-- sql/engine.go (GetSchema): methods in sequence, and the schemas that the engine knows.
use db.Prelude.{
  ◌≡◌, ◌⊎◌, refl, ◌∙◌, sym, subst, Bool, true, false, List, Option, none, some, Bytes, inl, inr,
  if◌then◌else◌,
}
use db.Bytes.Order.{cmp, is_eq}
use db.Storage.Run.{Rec}
use db.Storage.Kv.{Kv, Got, missing, found, get, mode_insert, mode_update}
use db.Storage.Kv
use db.Storage.Kv.Kept.{Keeps-refl}
use db.Table.Schema.{Schema}
use db.Sql.Engine.{
  SchemaJson, Engine, Result, ok, error, panic, stuck, Method, after, ◌>>=◌, schema_key, cached,
  with_table, get_schema, read_schema,
}
use db.Sql.Engine.Catalog.{IsPlain}
use db.Sql.Engine.Follows.{
  Post, IsCatalogKey, KnownPlain, IsSound, Follows, Follows-IsSound, Follows-refl, Follows-trans,
  Ensures, get_schema_lem, schema_in,
}

abbrev pub Any {ℓ} : {A : Type ℓ} → A → Type 0
Any a = Unit

pub Any-Post {ℓ} : {A : Type ℓ} (r : Result A) → Post Any r
Any-Post (ok a) = tt
Any-Post (error e) = tt
Any-Post panic = tt
Any-Post stuck = tt

module _ (json : SchemaJson) (runs : List (List Rec)) where
  pub after-Follows {ℓ κ} :
      {A : Type ℓ} {B : Type κ} {Q : A → Type 0} {R : B → Type 0} (e : Engine)
      (r : Engine × Result A) (f : A → Method B)
      → Follows json runs e r.0
      → Post Q r.1
      → ((a : A) → Q a → Ensures json runs R (f a))
      → Follows json runs e (after r f).0 × Post R (after r f).1
  after-Follows e (e', ok a) f h q k =
      let (g, p) = (k a q).call e' (Follows-IsSound json runs e e' h) in
      (Follows-trans json runs e e' (f a e').0 h g, p)
  after-Follows e (e', error x) f h q k = (h, tt)
  after-Follows e (e', panic) f h q k = (h, tt)
  after-Follows e (e', stuck) f h q k = (h, tt)

  pub bind-Ensures {ℓ κ} :
      {A : Type ℓ} {B : Type κ} {Q : A → Type 0} {R : B → Type 0} {m : Method A} {f : A → Method B}
      → Ensures json runs Q m
      → ((a : A) → Q a → Ensures json runs R (f a))
      → Ensures json runs R (m >>= f)
  bind-Ensures {m} {f} h k = record {
    call = λ e s. let (g, p) = h.call e s in after-Follows e (m e) f g p k;
  }

  -- A step that leaves the engine as it is.
  pub read-Ensures {ℓ} :
      {A : Type ℓ} (r : Engine → Result A) → Ensures json runs Any (λ e. (e, r e))
  read-Ensures r = record { call = λ e s. (Follows-refl json runs e s, Any-Post (r e)) }

  pub schema_cons :
      (s t : Schema) (b : Bool) (o : Option Schema) (g : Got)
      → IsPlain s.table
      → (b ≡ false → schema_in json runs o g ≡ ok t → IsPlain t.table)
      → schema_in json runs (if b then some s else o) g ≡ ok t
      → IsPlain t.table
  unfolding schema_in
  schema_cons s t true o g p k h =
      let same : s ≡ t = cc in subst (λ (x : Schema). IsPlain x.table) same p
  schema_cons s t false o g p k h = k refl h

  cached_next :
      (e : Engine) (name : Bytes) (s : Schema)
      → IsPlain s.table
      → IsSound json runs e
      → KnownPlain json runs (with_table name s e)
  unfolding cached
  cached_next e name s p v other t h =
      schema_cons s t (is_eq (cmp name other)) (cached other e.tables) (get e.kv (schema_key other))
        p (λ _ k. v.plain other t (get_schema_lem json runs other e ∙ k))
        (sym (get_schema_lem json runs other (with_table name s e)) ∙ h)

  -- The answer of get_schema comes with the engine, or with it and the schema in its cache.
  abbrev Cached : Bytes → Engine → Engine × Result Schema → Type 0
  Cached name e r = (r.0 ≡ e) ⊎ ((s : Schema) × (r.0 ≡ with_table name s e) × (r.1 ≡ ok s))

  read_cases :
      (name : Bytes) (e : Engine) (o : Option Schema) → Cached name e (read_schema name e o)
  read_cases name e none = inl refl
  read_cases name e (some s) = inr (s, refl, refl)

  got_cases :
      (name : Bytes) (e : Engine) (g : Got)
      → get e.kv (schema_key name) ≡ g
      → cached name e.tables ≡ none
      → Cached name e (get_schema json name e)
  unfolding get_schema
  got_cases name e Kv.error h c = rw (c, h, get_schema) (inl refl)
  got_cases name e missing h c = rw (c, h, get_schema) (inl refl)
  got_cases name e (found val) h c = rw (c, h, get_schema) (read_cases name e (json.unmarshal val))

  get_schema_cases :
      (name : Bytes) (e : Engine) (o : Option Schema)
      → cached name e.tables ≡ o
      → Cached name e (get_schema json name e)
  unfolding get_schema
  get_schema_cases name e (some s) h = rw (h, get_schema) (inl refl)
  get_schema_cases name e none h = got_cases name e (get e.kv (schema_key name)) refl h

  pub get_schema-Follows :
      (name : Bytes) (e : Engine)
      → IsSound json runs e
      → Follows json runs e (get_schema json name e).0
  get_schema-Follows name e v = elim (get_schema_cases name e (cached name e.tables) refl) [
    | inl same ↦ rw same (Follows-refl json runs e v)
    | inr (s, next, answer) ↦ rw next (record {
      keeps = Keeps-refl IsCatalogKey runs e.kv v.run v.valid;
      plain = cached_next e name s (v.plain name s answer) v;
    })
  ]

  answered :
      (name : Bytes) (e : Engine) (r : Result Schema)
      → IsSound json runs e
      → (get_schema json name e).1 ≡ r
      → Post (λ (s : Schema). IsPlain s.table) r
  answered name e (ok s) v h = v.plain name s h
  answered name e (error x) v h = tt
  answered name e panic v h = tt
  answered name e stuck v h = tt

  pub get_schema-Ensures :
      (name : Bytes) → Ensures json runs (λ s. IsPlain s.table) (get_schema json name)
  get_schema-Ensures name = record {
    call = λ e v. (get_schema-Follows name e v, answered name e (get_schema json name e).1 v refl);
  }
