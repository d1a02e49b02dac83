-- ===== src/Table/Cell/RoundTrip.antt =====
-- DecodeVal after EncodeVal, and DecodeKey after EncodeKey: the cell comes back, and the rest stays.
use db.Prelude.{
  ℕ, ◌+◌, ◌-◌, ◌%◌, ◌^◌, ◌<◌, ◌≡◌, ◌≢◌, refl, sym, ◌∙◌, ap, [], ◌∷◌, ◌++◌, append_assoc, arith,
  Bytes, some, bit_xor, length, take, drop, length-append, take-append, drop-append,
}
use db.Prelude.Int.{ℤ, IsI64, to_u64, of_u64, to_u64-lt, of_u64-to_u64}
use db.Bytes.Endian.{
  le_bytes, from_le, be_bytes, from_be, length-le_bytes, length-be_bytes, from_le-le_bytes,
  from_be-be_bytes,
}
use db.Bytes.Bits.{bit_xor_top}
use db.Table.Cell.{
  Cell, CellType, unset, type_i64, type_str, done, encode_key, decode_key, decode_key_as,
  encode_val, encode_val_as, decode_val, decode_val_as, decode_str_key, escape, with_i64, with_str,
}
use db.Table.Cell.Escape.{unescape-escape}
use db.Table.Cell.Order.{biased, biased-lt, key_form, IsCell, encode_key-key_form}

-- The cell that a decoder fills in: the one it is given, with the value of the cell that was encoded.
abbrev pub filled : Cell → Cell → Cell
filled blank c = elim c.ty [ type_str ↦ with_str blank c.str | _ ↦ with_i64 blank c.i64 ]

flip_twice : (w : ℕ) → w < 2 ^ 64 → bit_xor (bit_xor w (2 ^ 63)) (2 ^ 63) ≡ w
flip_twice w h =
    ground (arith, bit_xor_top 63 w, bit_xor_top 63 (w + 2 ^ 63), bit_xor_top 63 (w - 2 ^ 63))

key_form_i64 :
    (blank : Cell) (x : ℤ) (r : Bytes)
    → IsI64 x
    → decode_key_as type_i64 blank (be_bytes 8 (biased x) ++ r) ≡ done (with_i64 blank x) r
unfolding decode_key_as
key_form_i64 blank x r h =
    let w = be_bytes 8 (biased x) in
    let n : length w ≡ 8 = length-be_bytes 8 (biased x) in
    let front : take 8 (w ++ r) ≡ w = ap (λ (k : ℕ). take k (w ++ r)) (sym n) ∙ take-append w r in
    let back : drop 8 (w ++ r) ≡ r = ap (λ (k : ℕ). drop k (w ++ r)) (sym n) ∙ drop-append w r in
    let word : from_be w ≡ biased x =
      from_be-be_bytes 8 (biased x) ∙ omega (arith, biased-lt x h) in
    let value : of_u64 (bit_xor (from_be w) (2 ^ 63)) ≡ x =
      ap (λ (v : ℕ). of_u64 (bit_xor v (2 ^ 63))) word
      ∙ ap of_u64 (flip_twice (to_u64 x) (to_u64-lt x))
      ∙ of_u64-to_u64 x h in
    rw (front, back, value) (ground (arith, length-append w r, n))

key_form_str :
    (blank : Cell) (a r : Bytes)
    → decode_key_as type_str blank ((escape a ++ 0 ∷ []) ++ r) ≡ done (with_str blank a) r
unfolding decode_key_as decode_str_key
key_form_str blank a r = rw (append_assoc (escape a) (0 ∷ []) r) (unescape-escape blank [] a r)

-- DecodeKey, on a cell that has the type of a valid cell, reads back what EncodeKey gave for that
-- cell, and leaves the bytes that follow.
pub decode_key-encode_key :
    (c blank : Cell) (r k : Bytes)
    → IsCell c
    → blank.ty ≡ c.ty
    → encode_key c [] ≡ some k
    → decode_key blank (k ++ r) ≡ done (filled blank c) r
unfolding decode_key
decode_key-encode_key c blank r k (p, h) e i =
    let u : some k ≡ some (key_form c.ty c) = sym i ∙ encode_key-key_form c [] p in
    let x : k ≡ key_form c.ty c = cc in
    ap (λ (t : CellType). decode_key_as t blank (k ++ r)) e
    ∙ ap (λ (w : Bytes). decode_key_as c.ty blank (w ++ r)) x
    ∙ by_type c.ty p
  where
    by_type :
        (t : CellType)
        → t ≢ unset
        → decode_key_as t blank (key_form t c ++ r)
          ≡ done (elim t [ type_str ↦ with_str blank c.str | _ ↦ with_i64 blank c.i64 ]) r
    by_type unset q = absurd (q refl)
    by_type type_i64 q = key_form_i64 blank c.i64 r h
    by_type type_str q = key_form_str blank c.str r

val_form_i64 :
    (blank : Cell) (x : ℤ) (r : Bytes)
    → IsI64 x
    → decode_val_as type_i64 blank (le_bytes 8 (to_u64 x) ++ r) ≡ done (with_i64 blank x) r
unfolding decode_val_as
val_form_i64 blank x r h =
    let w = le_bytes 8 (to_u64 x) in
    let n : length w ≡ 8 = length-le_bytes 8 (to_u64 x) in
    let front : take 8 (w ++ r) ≡ w = ap (λ (k : ℕ). take k (w ++ r)) (sym n) ∙ take-append w r in
    let back : drop 8 (w ++ r) ≡ r = ap (λ (k : ℕ). drop k (w ++ r)) (sym n) ∙ drop-append w r in
    let value : of_u64 (from_le w) ≡ x =
      ap of_u64 (from_le-le_bytes 8 (to_u64 x) (to_u64-lt x)) ∙ of_u64-to_u64 x h in
    rw (front, back, value) (ground (arith, length-append w r, n))

val_form_str :
    (blank : Cell) (a r : Bytes)
    → length a + length r < 2 ^ 32
    → decode_val_as type_str blank ((le_bytes 4 (length a % 2 ^ 32) ++ a) ++ r)
      ≡ done (with_str blank a) r
unfolding decode_val_as
val_form_str blank a r h =
    let w = le_bytes 4 (length a % 2 ^ 32) in
    let n : length w ≡ 4 = length-le_bytes 4 (length a % 2 ^ 32) in
    let front : take 4 (w ++ (a ++ r)) ≡ w =
      ap (λ (k : ℕ). take k (w ++ (a ++ r))) (sym n) ∙ take-append w (a ++ r) in
    let back : drop 4 (w ++ (a ++ r)) ≡ a ++ r =
      ap (λ (k : ℕ). drop k (w ++ (a ++ r))) (sym n) ∙ drop-append w (a ++ r) in
    let size : from_le w ≡ length a =
      from_le-le_bytes 4 (length a % 2 ^ 32) (omega arith) ∙ omega arith in
    rw (append_assoc w a r, front, back, size, take-append a r, drop-append a r)
      (ground (arith, length-append w (a ++ r), length-append a r, n))

-- DecodeVal, on a cell that has the type of a valid cell, reads back what EncodeVal gave for that
-- cell, and leaves the bytes that follow, where a string and what follows it stay under 2 ^ 32 bytes
-- together.
pub decode_val-encode_val :
    (c blank : Cell) (r v : Bytes)
    → IsCell c
    → length c.str + length r < 2 ^ 32
    → blank.ty ≡ c.ty
    → encode_val c [] ≡ some v
    → decode_val blank (v ++ r) ≡ done (filled blank c) r
unfolding decode_val encode_val encode_val_as
decode_val-encode_val c blank r v (p, h) l e i =
    ap (λ (t : CellType). decode_val_as t blank (v ++ r)) e ∙ by_type c.ty p i
  where
    by_type :
        (t : CellType)
        → t ≢ unset
        → encode_val_as t c [] ≡ some v
        → decode_val_as t blank (v ++ r)
          ≡ done (elim t [ type_str ↦ with_str blank c.str | _ ↦ with_i64 blank c.i64 ]) r
    by_type unset q j = absurd (q refl)
    by_type type_i64 q j =
        let x : v ≡ le_bytes 8 (to_u64 c.i64) = cc in
        ap (λ (w : Bytes). decode_val_as type_i64 blank (w ++ r)) x ∙ val_form_i64 blank c.i64 r h
    by_type type_str q j =
        let x : v ≡ le_bytes 4 (length c.str % 2 ^ 32) ++ c.str = cc in
        ap (λ (w : Bytes). decode_val_as type_str blank (w ++ r)) x ∙ val_form_str blank c.str r l
