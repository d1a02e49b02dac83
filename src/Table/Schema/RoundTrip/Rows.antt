-- ===== src/Table/Schema/RoundTrip/Rows.antt =====
-- table/schema.go: DecodeKey and DecodeVal after EncodeKey and EncodeVal, on whole rows.
use db.Prelude.{
  ℕ, zero, suc, ◌^◌, ◌<◌, ◌≡◌, refl, sym, ap, ◌∙◌, subst, false, true, List, [], ◌∷◌, ◌++◌, Option,
  none, some, ◌>>=◌, append_assoc, arith, Bytes, length, length-append, take-append, drop-append,
  get_elem?, get_elem?-ext, get_elem?-past, map, inl, inr, Bool-cases, ltb,
}
use db.Bytes.Order.{cmp_refl}
use db.Table.Cell.{Cell, zero_cell}
use db.Table.Schema.{
  Column, Schema, Row, ok, is_pkey, new_row, encode_key, encode_val, decode_pkey, decode_key,
  decode_val,
}
use db.Table.Schema.Member.{encode_pkey-frame}
use db.Table.Schema.Order.{tuple_form, encode_pkey-tuple_form}
use db.Table.Schema.RoundTrip.{FitsSchema, At, Partial}
use db.Table.Schema.RoundTrip.Loops.{
  cols_form, encodable, decode_pkey-tuple_form, encode_cols-cols_form, decode_cols-cols_form,
}

length-zeros : (cols : List Column) → length (map (λ (c : Column). zero_cell) cols) ≡ length cols
length-zeros [] = refl
length-zeros (c ∷ cols) = ap suc (length-zeros cols)

zeros-at :
    (cols : List Column) (i : ℕ)
    → i < length cols
    → get_elem? (map (λ (c : Column). zero_cell) cols) i ≡ some zero_cell
zeros-at [] i h = absurd (ground arith)
zeros-at (c ∷ cols) zero h = refl
zeros-at (c ∷ cols) (suc i) h = zeros-at cols i (ground arith)

some_inj : {a b : Bytes} → some a ≡ some b → a ≡ b
some_inj h = cc

module _ (schema : Schema) (row : Row) (fits : FitsSchema schema row) where
  in_range : (i : ℕ) (c : Cell) → get_elem? row i ≡ some c → i < length schema.cols
  in_range i c h = elim (Bool-cases (ltb i (length schema.cols))) [
    | inl k ↦ ground arith
    | inr k ↦
        let past : get_elem? row i ≡ none = get_elem?-past row i (ground (arith, fits.0)) in
        absurd cc
  ]

  new_row-Partial : Partial schema row (new_row schema)
  unfolding new_row
  new_row-Partial = (
    length-zeros schema.cols ∙ sym (fits.0),
    λ i c e. inr (zeros-at schema.cols i (in_range i c e)),
  )

  -- The key without the table's name and the zero byte.
  pub key-tuple_form :
      (key : Bytes)
      → encode_key schema row ≡ some key
      → key ≡ (schema.table ++ 0 ∷ []) ++ (tuple_form row schema.pkey ++ 0 ∷ [])
  unfolding encode_key
  key-tuple_form key h =
      let pre = schema.table ++ 0 ∷ [] in
      let e =
        encode_pkey-tuple_form row schema.pkey pre
          (encodable schema row fits schema.pkey (fits.1)) in
      let g : some ((pre ++ tuple_form row schema.pkey) ++ 0 ∷ []) ≡ some key = rw e at h in
      sym (some_inj g) ∙ append_assoc pre (tuple_form row schema.pkey) (0 ∷ [])

  val-cols_form :
      (val : Bytes) → encode_val schema row ≡ some val → val ≡ cols_form schema row 0 schema.cols
  unfolding encode_val
  val-cols_form val h =
      some_inj (sym h ∙ encode_cols-cols_form schema row fits 0 schema.cols [] (omega arith))

  -- DecodeKey of the row's key is the loop over the key columns.
  decode_key-prefix :
      (r : Row) (bytes : Bytes)
      → decode_key schema r ((schema.table ++ 0 ∷ []) ++ bytes)
        ≡ decode_pkey schema r schema.pkey bytes
  unfolding decode_key
  decode_key-prefix r bytes =
      let pre = schema.table ++ 0 ∷ [] in
      let long : ltb (length (pre ++ bytes)) (length pre) ≡ false =
        ground (arith, length-append pre bytes) in
      rw (long, take-append pre bytes, cmp_refl pre, drop-append pre bytes) refl

  pub key_comes_back :
      (key : Bytes)
      → encode_key schema row ≡ some key
      → (r : Row) × (decode_key schema (new_row schema) key ≡ (r, ok))
        × Partial schema row r
        × ((i : ℕ) → is_pkey schema i ≡ true → At schema row r i)
  unfolding is_pkey
  key_comes_back key h =
      let (r, d, (p, _), a) =
        decode_pkey-tuple_form schema row fits (new_row schema) schema.pkey (0 ∷ []) new_row-Partial
          (fits.1) in
      (
        r,
        ap (decode_key schema (new_row schema)) (key-tuple_form key h)
            ∙ decode_key-prefix (new_row schema) (tuple_form row schema.pkey ++ 0 ∷ [])
            ∙ d,
        p,
        a,
      )

  all-At :
      (r : Row)
      → Partial schema row r
      → ((i : ℕ) → i < length schema.cols → At schema row r i)
      → r ≡ row
  all-At r (n, _) a = get_elem?-ext r row (λ i. elim (Bool-cases (ltb i (length schema.cols))) [
    | inl k ↦ a i (ground arith)
    | inr k ↦
        get_elem?-past r i (ground (arith, fits.0))
        ∙ sym (get_elem?-past row i (ground (arith, fits.0)))
  ])

  pub val_comes_back :
      (r : Row) (val : Bytes)
      → encode_val schema row ≡ some val
      → length val < 2 ^ 32
      → Partial schema row r
      → ((i : ℕ) → is_pkey schema i ≡ true → At schema row r i)
      → decode_val schema r val ≡ (row, ok)
  unfolding decode_val
  val_comes_back r val h b p keys =
      let e = val-cols_form val h in
      let (r', d, (p', g), a) =
        decode_cols-cols_form schema row fits r 0 schema.cols p (omega arith)
          (subst (λ (v : Bytes). length v < 2 ^ 32) e b) in
      let whole : r' ≡ row = all-At r' p' (λ i k. elim (Bool-cases (is_pkey schema i)) [
        | inl key ↦ g i (keys i key)
        | inr other ↦ a i (ground arith) k other
      ]) in
      rw e (d ∙ ap (λ (x : Row). (x, ok)) whole)

  -- The row has a key.
  pub encodes-key : (key : Bytes) × (encode_key schema row ≡ some key)
  unfolding encode_key
  encodes-key =
      let pre = schema.table ++ 0 ∷ [] in
      let e =
        encode_pkey-tuple_form row schema.pkey pre
          (encodable schema row fits schema.pkey (fits.1)) in
      ((pre ++ tuple_form row schema.pkey) ++ 0 ∷ [], rw e refl)

-- The key is that of the primary key's cells.
pub encode_key-same :
    (schema : Schema) (row sought : Row)
    → ((i : ℕ) → is_pkey schema i ≡ true → At schema row sought i)
    → encode_key schema sought ≡ encode_key schema row
unfolding encode_key is_pkey
encode_key-same schema row sought keys =
    ap (λ (o : Option Bytes). o >>= λ key. some (key ++ 0 ∷ []))
      (encode_pkey-frame row sought schema.pkey (schema.table ++ 0 ∷ []) keys)
