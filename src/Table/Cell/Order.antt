-- ===== src/Table/Cell/Order.antt =====
-- The key form keeps the order: bytes.Compare on two encoded cells, whatever follows them, is the
-- logical order of the cells, and only on a tie the order of what follows.
use db.Prelude.{
  ℕ, ◌+◌, ◌^◌, ◌<◌, ◌≡◌, refl, ◌∙◌, ap, [], ◌∷◌, ◌++◌, append_assoc, arith, Bytes, some, length,
  sym, ◌≢◌, compare, Ordering, bit_xor,
}
use db.Prelude.Int.{ℤ, pos, negsuc, IsI64, to_u64, pos_part, neg_part}
use db.Bytes.Order.{cmp, cmp-append}
use db.Bytes.Endian.{be_bytes, cmp-be_bytes, length-be_bytes}
use db.Bytes.Bits.{bit_xor_top}
use db.Table.Cell.{
  Cell, CellType, unset, type_i64, type_str, encode_key, encode_key_as, encode_str_key, escape,
}
use db.Table.Cell.Escape.{then_by, cmp-escape}

-- The order of the integers.
abbrev pub compare_ℤ : ℤ → ℤ → Ordering
compare_ℤ a b = compare (pos_part a + neg_part b) (pos_part b + neg_part a)

-- The order of two cells of one type.
abbrev pub cell_order : Cell → Cell → Ordering
cell_order a b = elim a.ty [ type_str ↦ cmp a.str b.str | _ ↦ compare_ℤ a.i64 b.i64 ]

-- The word that is written for an int64.
abbrev pub biased : ℤ → ℕ
biased x = bit_xor (to_u64 x) (2 ^ 63)

biased_value : (x : ℤ) → IsI64 x → biased x + neg_part x ≡ 2 ^ 63 + pos_part x
unfolding to_u64
biased_value (pos n) h = ground (arith, bit_xor_top 63 (to_u64 (pos n)))
biased_value (negsuc n) h = ground (arith, bit_xor_top 63 (to_u64 (negsuc n)))

pub biased-lt : (x : ℤ) → IsI64 x → biased x < 2 ^ 64
biased-lt (pos n) h = omega (arith, biased_value (pos n) h)
biased-lt (negsuc n) h = omega (arith, biased_value (negsuc n) h)

compare-biased : (x y : ℤ) → IsI64 x → IsI64 y → compare (biased x) (biased y) ≡ compare_ℤ x y
compare-biased x y h g = ground (arith, biased_value x h, biased_value y g)

-- Byte strings of one length are compared first, then what follows them.
cmp_fixed :
    (a b r s : Bytes) → length a ≡ length b → cmp (a ++ r) (b ++ s) ≡ then_by (cmp a b) (cmp r s)
unfolding cmp
cmp_fixed [] [] r s h = refl
cmp_fixed [] (y ∷ b) r s h = absurd (omega arith)
cmp_fixed (x ∷ a) [] r s h = absurd (omega arith)
cmp_fixed (x ∷ a) (y ∷ b) r s h = ground (arith, cmp_fixed a b r s (omega arith))

-- The bytes that EncodeKey appends.
abbrev pub key_form : CellType → Cell → Bytes
key_form unset cell = []
key_form type_i64 cell = be_bytes 8 (biased cell.i64)
key_form type_str cell = escape cell.str ++ 0 ∷ []

-- A cell that a schema's column can hold: one of the two types, and an int64 in range.
abbrev pub IsCell : Cell → Type 0
IsCell c = (c.ty ≢ unset) × IsI64 c.i64

pub encode_key-key_form :
    (c : Cell) (out : Bytes) → c.ty ≢ unset → encode_key c out ≡ some (out ++ key_form c.ty c)
unfolding encode_key encode_key_as encode_str_key
encode_key-key_form c out h = by_type c.ty h
  where
    by_type : (t : CellType) → t ≢ unset → encode_key_as t c out ≡ some (out ++ key_form t c)
    by_type unset k = absurd (k refl)
    by_type type_i64 k = refl
    by_type type_str k = refl

-- The key forms of two cells of one type, with anything behind them, compare as the cells do, and as
-- what is behind them when the cells are equal.
pub cmp-key_form :
    (a b : Cell) (r s : Bytes)
    → IsCell a
    → IsCell b
    → a.ty ≡ b.ty
    → cmp (key_form a.ty a ++ r) (key_form b.ty b ++ s) ≡ then_by (cell_order a b) (cmp r s)
cmp-key_form a b r s (p, h) (q, g) e =
    ap (λ (t : CellType). cmp (key_form a.ty a ++ r) (key_form t b ++ s)) (sym e) ∙ by_type a.ty p
  where
    by_type :
        (t : CellType)
        → t ≢ unset
        → cmp (key_form t a ++ r) (key_form t b ++ s)
          ≡ then_by (elim t [ type_str ↦ cmp a.str b.str | _ ↦ compare_ℤ a.i64 b.i64 ]) (cmp r s)
    by_type unset k = absurd (k refl)
    by_type type_i64 k =
        cmp_fixed (be_bytes 8 (biased a.i64)) (be_bytes 8 (biased b.i64)) r s
          (length-be_bytes 8 (biased a.i64) ∙ sym (length-be_bytes 8 (biased b.i64)))
        ∙ ap (λ (o : Ordering). then_by o (cmp r s))
            (cmp-be_bytes 8 (biased a.i64) (biased b.i64) (biased-lt a.i64 h) (biased-lt b.i64 g)
              ∙ compare-biased a.i64 b.i64 h g)
    by_type type_str k =
        ap (λ (x : Bytes). cmp x ((escape b.str ++ 0 ∷ []) ++ s))
          (append_assoc (escape a.str) (0 ∷ []) r)
        ∙ ap (cmp (escape a.str ++ 0 ∷ r)) (append_assoc (escape b.str) (0 ∷ []) s)
        ∙ cmp-escape a.str b.str r s

-- What EncodeKey gives for two valid cells of one type behind the same bytes of a buffer, with any
-- bytes r and s appended, compares as the cells do, integers by value and strings by bytes, and as r and
-- s do when the cells are equal.
pub encode_key_order :
    (a b : Cell) (out r s ka kb : Bytes)
    → IsCell a
    → IsCell b
    → a.ty ≡ b.ty
    → encode_key a out ≡ some ka
    → encode_key b out ≡ some kb
    → cmp (ka ++ r) (kb ++ s) ≡ then_by (cell_order a b) (cmp r s)
encode_key_order a b out r s ka kb h g e i j =
    let u : some ka ≡ some (out ++ key_form a.ty a) = sym i ∙ encode_key-key_form a out (h.0) in
    let v : some kb ≡ some (out ++ key_form b.ty b) = sym j ∙ encode_key-key_form b out (g.0) in
    let x : ka ≡ out ++ key_form a.ty a = cc in
    let y : kb ≡ out ++ key_form b.ty b = cc in
    rw (x, y, append_assoc, append_assoc, cmp-append) (cmp-key_form a b r s h g e)
