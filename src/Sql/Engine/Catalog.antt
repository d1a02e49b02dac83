-- ===== src/Sql/Engine/Catalog.antt =====
-- sql/engine.go: the reserved keys of the catalog and the keys of rows.
use db.Prelude.{
  ℕ, ◌≡◌, refl, false, List, [], ◌∷◌, ◌++◌, Option, none, some, ◌>>=◌, arith, Bytes, get_elem?,
  subst,
}
use db.Bytes.Order.{cmp, is_eq}
use db.Table.Cell.{Cell, CellType, unset, type_i64, type_str, encode_key_as, encode_str_key}
use db.Table.Cell
use db.Table.Schema.{Schema, Row, encode_pkey, encode_key, tag}
use db.Sql.Engine.{schema_key}
pub use db.Sql.Parser.Statement.Names.{IsPlain}

abbrev get_or_nil : Option Bytes → Bytes
get_or_nil none = []
get_or_nil (some s) = s

-- Inversion of a bind.
pub >>=-eq-some {ℓ κ} :
    {A : Type ℓ} {B : Type κ} (o : Option A) (f : A → Option B) {b : B}
    → (o >>= f) ≡ some b
    → (a : A) × (o ≡ some a) × (f a ≡ some b)
>>=-eq-some none f h = cc
>>=-eq-some (some a) f h = (a, refl, h)

IsPlain-append : (s rest : Bytes) → IsPlain s → IsPlain (s ++ rest)
IsPlain-append [] rest h = absurd h
IsPlain-append (ch ∷ s) rest h = h

cell_key-IsPlain :
    (t : CellType) (cell : Cell) (out key : Bytes)
    → IsPlain out
    → encode_key_as t cell out ≡ some key
    → IsPlain key
unfolding encode_key_as encode_str_key
cell_key-IsPlain unset cell out key h e = cc
cell_key-IsPlain type_i64 cell out key h e =
    subst (λ o. IsPlain (get_or_nil o)) e (IsPlain-append out _ h)
cell_key-IsPlain type_str cell out key h e =
    subst (λ o. IsPlain (get_or_nil o)) e (IsPlain-append out _ h)

encode_pkey-IsPlain :
    (row : Row) (pkey : List ℕ) (start key : Bytes)
    → IsPlain start
    → encode_pkey row pkey start ≡ some key
    → IsPlain key
unfolding encode_pkey Cell.encode_key
encode_pkey-IsPlain row [] start key h e = subst (λ o. IsPlain (get_or_nil o)) e h
encode_pkey-IsPlain row (idx ∷ pkey) start key h e =
    let (cell, _, e') = >>=-eq-some (get_elem? row idx) _ e in
    let (next, d, e'') = >>=-eq-some (Cell.encode_key cell (start ++ tag cell.ty ∷ [])) _ e' in
    encode_pkey-IsPlain row pkey next key
      (cell_key-IsPlain cell.ty cell (start ++ tag cell.ty ∷ []) next
        (IsPlain-append start (tag cell.ty ∷ []) h) d)
      e''

pub encode_key-IsPlain :
    (schema : Schema) (row : Row) (key : Bytes)
    → IsPlain schema.table
    → encode_key schema row ≡ some key
    → IsPlain key
unfolding encode_key
encode_key-IsPlain schema row key h e =
    let (k, d, e') = >>=-eq-some (encode_pkey row schema.pkey (schema.table ++ 0 ∷ [])) _ e in
    subst (λ o. IsPlain (get_or_nil o)) e'
      (IsPlain-append k (0 ∷ []) (
        encode_pkey-IsPlain row schema.pkey (schema.table ++ 0 ∷ []) k
          (IsPlain-append schema.table (0 ∷ []) h) d))

-- No row lies under a reserved key.
pub cmp-schema_key : (key name : Bytes) → IsPlain key → is_eq (cmp key (schema_key name)) ≡ false
unfolding cmp
cmp-schema_key [] name h = absurd h
cmp-schema_key (ch ∷ key) name h = ground arith
