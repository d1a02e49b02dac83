-- ===== src/Table/Db/Rows.antt =====
-- Reading a row back after writing or deleting it.
use db.Prelude.{ℕ, ◌^◌, ◌<◌, ap, ◌∙◌, length, ◌≡◌, true, List, some, ◌>>=◌, arith, Bytes}
use db.Bytes.Order.{cmp_refl}
use db.Storage.Run.{Rec}
use db.Storage.Kv.{Kv, get, mode_upsert}
use db.Storage.Log.{succeeds}
use db.Storage.Kv.Lookup.{IsValid}
use db.Storage.Kv.Write.{get-set_ex, get-del, is_found}
use db.Table.Schema.RoundTrip.{FitsSchema, Partial, At}
use db.Table.Schema.RoundTrip.Rows.{val_comes_back, encode_key-same, encodes-key}
use db.Table.Schema.{Schema, Row, is_pkey, encode_key, encode_val, decode_val}
use db.Table.Db.{hit, miss, selected, select, upsert, delete}

module _ (kv : Kv) (rs : List Rec) (runs : List (List Rec)) (valid : IsValid kv rs runs)
    (schema : Schema) (row : Row) where
  -- In a valid engine, after an Upsert of a row that encodes, with a log write that succeeds, Select of a
  -- row with the same key finds the value that was written and decodes it.
  pub select-upsert :
      (sought : Row) (key val : Bytes)
      → encode_key schema row ≡ some key
      → encode_val schema row ≡ some val
      → encode_key schema sought ≡ some key
      → (upsert succeeds kv schema row >>= λ r. select r.0 schema sought)
        ≡ some (selected (decode_val schema sought val))
  unfolding upsert select
  select-upsert sought key val k v s =
      rw (k, v, s)
        (ground (arith, get-set_ex kv rs runs valid key val key mode_upsert, cmp_refl key))

  -- In a valid engine, after an Upsert with a log write that succeeds, of a row whose every cell is
  -- valid and of its column's type, holds nothing but that type's value, and whose value has under
  -- 2 ^ 32 bytes, Select hits and gives the row back whole, where it is given a row with the same
  -- primary-key cells and in each other column the zero cell or the row's own.
  pub select-upsert_row :
      (sought : Row) (val : Bytes)
      → FitsSchema schema row
      → encode_val schema row ≡ some val
      → length val < 2 ^ 32
      → Partial schema row sought
      → ((i : ℕ) → is_pkey schema i ≡ true → At schema row sought i)
      → (upsert succeeds kv schema row >>= λ r. select r.0 schema sought) ≡ some (row, hit)
  select-upsert_row sought val fits v b p keys =
      let (key, k) = encodes-key schema row fits in
      let s : encode_key schema sought ≡ some key = encode_key-same schema row sought keys ∙ k in
      select-upsert sought key val k v s
      ∙ ap (λ d. some (selected d)) (val_comes_back schema row fits sought val v b p keys)

  -- In a valid engine, after a Delete of a row that was there, with a log write that succeeds, Select of
  -- a row with the same key misses.
  pub select-delete :
      (sought : Row) (key : Bytes)
      → encode_key schema row ≡ some key
      → encode_key schema sought ≡ some key
      → is_found (get kv key) ≡ true
      → (delete succeeds kv schema row >>= λ r. select r.0 schema sought) ≡ some (sought, miss)
  unfolding delete select
  select-delete sought key k s h =
      rw (k, s) (ground (arith, get-del kv rs runs valid key key h, cmp_refl key))
