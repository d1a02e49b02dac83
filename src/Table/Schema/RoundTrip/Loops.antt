-- ===== src/Table/Schema/RoundTrip/Loops.antt =====
-- table/schema.go: the loops of DecodeKey and DecodeVal over what those of EncodeKey and EncodeVal gave.
use db.Prelude.{
  ℕ, suc, ◌+◌, ◌%◌, ◌^◌, ◌<◌, ◌≤◌, ◌≡◌, ◌≢◌, refl, sym, ap, subst, ◌∙◌, true, false, List, [], ◌∷◌,
  ◌++◌, Option, none, some, append_assoc, append-nil, All-imp, arith, Bytes, All, length,
  length-append, get_elem?, ◌==◌, if◌then◌else◌, inl, inr, Bool-cases,
}
use db.Prelude.Int.{to_u64}
use db.Bytes.Endian.{le_bytes}
use db.Table.Cell.{Cell, CellType, unset, type_i64, type_str, Read, done, zero_cell}
use db.Table.Cell
use db.Table.Cell.Order.{key_form, encode_key-key_form}
use db.Table.Cell.RoundTrip.{filled, decode_key-encode_key, decode_val-encode_val}
use db.Table.Schema.{
  Column, Schema, Row, Outcome, ok, is_member, is_pkey, tag, with_type, fill, decode_pkey,
  decode_cols, encode_cols,
}
use db.Table.Schema
use db.Table.Schema.Member.{member-cons}
use db.Table.Schema.Order.{Encodes, tuple_form}
use db.Table.Schema.RoundTrip.{IsClean, FitsSchema, At, Partial, Grows, cell_at, fill-Grows}

-- What the value loop appends for one cell, and for the columns from i on.
abbrev pub val_form : CellType → Cell → Bytes
val_form unset c = []
val_form type_i64 c = le_bytes 8 (to_u64 c.i64)
val_form type_str c = le_bytes 4 (length c.str % 2 ^ 32) ++ c.str

encode_val-val_form :
    (c : Cell) (out : Bytes) → c.ty ≢ unset → Cell.encode_val c out ≡ some (out ++ val_form c.ty c)
unfolding Cell.encode_val Cell.encode_val_as
encode_val-val_form c out h = by_type c.ty h
  where
    by_type : (t : CellType) → t ≢ unset → Cell.encode_val_as t c out ≡ some (out ++ val_form t c)
    by_type unset k = absurd (k refl)
    by_type type_i64 k = refl
    by_type type_str k = refl

str-val_form : (c : Cell) → c.ty ≢ unset → IsClean c → length c.str ≤ length (val_form c.ty c)
str-val_form c h k = by_type c.ty h k
  where
    by_type :
        (t : CellType)
        → t ≢ unset
        → filled (with_type zero_cell t) (with_type c t) ≡ c
        → length c.str ≤ length (val_form t c)
    by_type unset p q = absurd (p refl)
    by_type type_i64 p q =
        let e : [] ≡ c.str = ap (λ (x : Cell). x.str) q in ground (arith, ap length e)
    by_type type_str p q = ground (arith, length-append (le_bytes 4 (length c.str % 2 ^ 32)) c.str)

abbrev pub some_val : Option Cell → Bytes → Bytes
some_val none rest = []
some_val (some c) rest = val_form c.ty c ++ rest

abbrev pub cols_form : Schema → Row → ℕ → List Column → Bytes
cols_form schema row i [] = []
cols_form schema row i (c ∷ cols) =
    if is_pkey schema i
    then cols_form schema row (suc i) cols
    else some_val (get_elem? row i) (cols_form schema row (suc i) cols)

module _ (schema : Schema) (row : Row) (fits : FitsSchema schema row) where
  decode_pkey-cons :
      (r r' : Row) (idx t : ℕ) (ps : List ℕ) (bytes rest : Bytes)
      → fill Cell.decode_key schema r idx bytes ≡ Schema.filled r' rest
      → decode_pkey schema r (idx ∷ ps) (t ∷ bytes) ≡ decode_pkey schema r' ps rest
  unfolding decode_pkey
  decode_pkey-cons r r' idx t ps bytes rest h = rw h (ground arith)

  pub encodable : (ps : List ℕ) → All (λ (i : ℕ). i < length schema.cols) ps → All (Encodes row) ps
  encodable ps h =
      All-imp
        (λ (i : ℕ) (k : i < length schema.cols).
          let (c, _, e, _, v, _, _) = cell_at schema row fits i k in (c, e, v))
        ps h

  pub decode_pkey-tuple_form :
      (r : Row) (ps : List ℕ) (rest : Bytes)
      → Partial schema row r
      → All (λ (i : ℕ). i < length schema.cols) ps
      → (r' : Row) × (decode_pkey schema r ps (tuple_form row ps ++ rest) ≡ (r', ok))
        × Grows schema row r r'
        × ((i : ℕ) → is_member i ps ≡ true → At schema row r' i)
  unfolding is_member
  decode_pkey-tuple_form r [] rest p h = (r, unfold decode_pkey in refl, (p, λ i a. a), λ i k. cc)
  decode_pkey-tuple_form r (idx ∷ ps) rest p (h, hs) =
      let (c, _, e, _, v, _, _) = cell_at schema row fits idx h in
      let (r1, f, (p1, g1), a1) =
        fill-Grows schema row fits Cell.decode_key r idx c
          (key_form c.ty c ++ (tuple_form row ps ++ rest)) (tuple_form row ps ++ rest) p h e
          (λ blank t.
            decode_key-encode_key c blank (tuple_form row ps ++ rest) (key_form c.ty c) v t
              (encode_key-key_form c [] (v.0))) in
      let (r2, d, (p2, g2), a2) = decode_pkey-tuple_form r1 ps rest p1 hs in
      (
        r2,
        rw (e, append_assoc (key_form c.ty c) (tuple_form row ps) rest)
            (decode_pkey-cons r r1 idx (tag c.ty) ps
                (key_form c.ty c ++ (tuple_form row ps ++ rest)) (tuple_form row ps ++ rest) f
              ∙ d),
        (p2, λ i a. g2 i (g1 i a)),
        λ i k. elim (Bool-cases (idx == i)) [
          | inl same ↦ subst (At schema row r2) (ground arith) (g2 idx a1)
          | inr other ↦ a2 i (ground (arith, member-cons i idx ps))
        ],
      )

  pub encode_cols-cols_form :
      (i : ℕ) (cols : List Column) (val : Bytes)
      → i + length cols ≡ length schema.cols
      → encode_cols schema row i cols val ≡ some (val ++ cols_form schema row i cols)
  unfolding encode_cols
  encode_cols-cols_form i [] val n = ap some (sym (append-nil val))
  encode_cols-cols_form i (col ∷ cols) val n = elim (Bool-cases (is_pkey schema i)) [
    | inl key ↦ rw key (encode_cols-cols_form (suc i) cols val (ground arith))
    | inr not_key ↦
        let (c, _, e, _, v, _, _) = cell_at schema row fits i (ground arith) in
        rw (not_key, e, encode_val-val_form c val (v.0))
          (encode_cols-cols_form (suc i) cols (val ++ val_form c.ty c) (ground arith)
            ∙ ap some (append_assoc val (val_form c.ty c) (cols_form schema row (suc i) cols)))
  ]

  decode_cols-kept :
      (r : Row) (i : ℕ) (col : Column) (cols : List Column) (bytes : Bytes)
      → is_pkey schema i ≡ true
      → decode_cols schema r i (col ∷ cols) bytes ≡ decode_cols schema r (suc i) cols bytes
  unfolding decode_cols
  decode_cols-kept r i col cols bytes h = rw h refl

  decode_cols-cons :
      (r r' : Row) (i : ℕ) (col : Column) (cols : List Column) (bytes rest : Bytes)
      → is_pkey schema i ≡ false
      → fill Cell.decode_val schema r i bytes ≡ Schema.filled r' rest
      → decode_cols schema r i (col ∷ cols) bytes ≡ decode_cols schema r' (suc i) cols rest
  unfolding decode_cols
  decode_cols-cons r r' i col cols bytes rest h f = rw (h, f) refl

  pub decode_cols-cols_form :
      (r : Row) (i : ℕ) (cols : List Column)
      → Partial schema row r
      → i + length cols ≡ length schema.cols
      → length (cols_form schema row i cols) < 2 ^ 32
      → (r' : Row) × (decode_cols schema r i cols (cols_form schema row i cols) ≡ (r', ok))
        × Grows schema row r r'
        × ((j : ℕ) → i ≤ j → j < length schema.cols → is_pkey schema j ≡ false → At schema row r' j)
  decode_cols-cols_form r i [] p n b =
      (r, unfold decode_cols in refl, (p, λ j a. a), λ j l m k. absurd (ground arith))
  decode_cols-cols_form r i (col ∷ cols) p n b = elim (Bool-cases (is_pkey schema i)) [
    | inl key ↦
        let (r', d, g, a) = decode_cols-cols_form r (suc i) cols p (ground arith) (rw key at b) in
        (
          r',
          rw key (decode_cols-kept r i col cols (cols_form schema row (suc i) cols) key ∙ d),
          g,
          λ j l m k. elim (Bool-cases (i == j)) [
            | inl same ↦ let e : i ≡ j = ground arith in absurd cc
            | inr other ↦ a j (ground arith) m k
          ],
        )
    | inr val ↦
        let (c, _, e, _, v, _, clean) = cell_at schema row fits i (ground arith) in
        let later = cols_form schema row (suc i) cols in
        let size : length (val_form c.ty c ++ later) < 2 ^ 32 = rw (val, e) at b in
        let (r1, f, (p1, g1), a1) =
          fill-Grows schema row fits Cell.decode_val r i c (val_form c.ty c ++ later) later p
            (ground arith) e
            (λ blank t.
              decode_val-encode_val c blank later (val_form c.ty c) v
                (ground (arith, str-val_form c (v.0) clean, length-append (val_form c.ty c) later))
                t (encode_val-val_form c [] (v.0))) in
        let (r2, d, (p2, g2), a2) =
          decode_cols-cols_form r1 (suc i) cols p1 (ground arith)
            (ground (arith, length-append (val_form c.ty c) later)) in
        (
          r2,
          rw (val, e) (decode_cols-cons r r1 i col cols (val_form c.ty c ++ later) later val f ∙ d),
          (p2, λ j a. g2 j (g1 j a)),
          λ j l m k. elim (Bool-cases (i == j)) [
            | inl same ↦ subst (At schema row r2) (ground arith) (g2 i a1)
            | inr other ↦ a2 j (ground arith) m k
          ],
        )
  ]
