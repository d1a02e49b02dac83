-- ===== src/Table/Schema/RoundTrip.antt =====
-- table/schema.go: a row comes back from its key and its value.
pub mod Loops
pub mod Rows
use db.Prelude.{
  ℕ, ◌+◌, ◌<◌, ◌≡◌, refl, sym, ap, subst, ◌∙◌, Bool, true, false, List, [], ◌∷◌, ◌++◌, Option, none,
  some, arith, Bytes, All, length, length-set, get_elem?, get_elem?-some, get_elem?-past,
  get_elem?-set_ne, get_elem?-set_self, set, ltb, ◌==◌, if◌then◌else◌, inl, inr, Bool-cases, ◌⊎◌,
}
use db.Table.Cell.{
  Cell, CellType, unset, type_i64, type_str, Read, done, zero_cell, with_i64, with_str,
}
use db.Table.Cell
use db.Table.Cell.Order.{IsCell}
use db.Table.Cell.RoundTrip.{filled}
use db.Table.Schema.{Column, Schema, Row, with_type, fill, put_read}
use db.Table.Schema

-- A cell with nothing but its type's value: what decoding into a new row gives back.
abbrev pub IsClean : Cell → Type 0
IsClean c = filled (with_type zero_cell c.ty) c ≡ c

-- The row has a clean, valid cell of the column's type in every column, and the primary key names
-- columns that there are.
abbrev pub FitsSchema : Schema → Row → Type 0
FitsSchema schema row =
    (length row ≡ length schema.cols)
    × All (λ (i : ℕ). i < length schema.cols) schema.pkey
    × ((i : ℕ) (c : Cell) (col : Column)
        → get_elem? row i ≡ some c
        → get_elem? schema.cols i ≡ some col
        → IsCell c × (c.ty ≡ col.ty) × IsClean c)

by_value :
    (c : Cell) (t : CellType) → (elim t [ type_str ↦ with_str c c.str | _ ↦ with_i64 c c.i64 ]) ≡ c
by_value c unset = refl
by_value c type_i64 = refl
by_value c type_str = refl

module _ (schema : Schema) (row : Row) where
  -- A column of a row under way is decoded.
  abbrev pub At : Row → ℕ → Type 0
  At r i = get_elem? r i ≡ get_elem? row i

  -- A row under way: every column is decoded or has the zero cell.
  abbrev pub Partial : Row → Type 0
  Partial r =
      (length r ≡ length row)
      × ((i : ℕ) (c : Cell)
          → get_elem? row i ≡ some c
          → (get_elem? r i ≡ some c) ⊎ (get_elem? r i ≡ some zero_cell))

  -- What is decoded stays decoded.
  abbrev pub Grows : Row → Row → Type 0
  Grows r r' = Partial r' × ((i : ℕ) → At r i → At r' i)

  module _ (fits : FitsSchema schema row) where
    pub cell_at :
        (i : ℕ)
        → i < length schema.cols
        → (c : Cell) × (col : Column) × (get_elem? row i ≡ some c)
          × (get_elem? schema.cols i ≡ some col)
          × IsCell c
          × (c.ty ≡ col.ty)
          × IsClean c
    cell_at i h =
        let (c, e) = get_elem?-some row i (ground (arith, fits.0)) in
        let (col, f) = get_elem?-some schema.cols i h in
        let (v, t, w) = fits.2 i c col e f in (c, col, e, f, v, t, w)

    set-Grows :
        (r : Row) (idx : ℕ) (t c : Cell)
        → Partial r
        → idx < length row
        → get_elem? row idx ≡ some c
        → Grows r (set (set r idx t) idx c) × At (set (set r idx t) idx c) idx
    set-Grows r idx t c (n, p) h e =
        let r' = set (set r idx t) idx c in
        let m : length (set r idx t) ≡ length row = length-set r idx t ∙ n in
        let here : get_elem? r' idx ≡ some c =
          get_elem?-set_self (set r idx t) idx c (ground arith) in
        let frame : (i : ℕ) → (idx == i) ≡ false → get_elem? r' i ≡ get_elem? r i =
          λ i k. get_elem?-set_ne (set r idx t) idx i c k ∙ get_elem?-set_ne r idx i t k in
        let moved : (i : ℕ) → (idx == i) ≡ true → At r' i =
          λ i k. subst (λ (j : ℕ). At r' j) (ground arith) (here ∙ sym e) in
        let kept : (i : ℕ) → At r i → At r' i =
          λ i a. elim (Bool-cases (idx == i)) [ inl k ↦ moved i k | inr k ↦ frame i k ∙ a ] in
        let cells : (i : ℕ) (d : Cell)
            → get_elem? row i ≡ some d
            → (get_elem? r' i ≡ some d) ⊎ (get_elem? r' i ≡ some zero_cell) =
          λ i d g. elim (Bool-cases (idx == i)) [
            | inl k ↦ inl (moved i k ∙ g)
            | inr k ↦ elim (p i d g) [ inl x ↦ inl (frame i k ∙ x) | inr x ↦ inr (frame i k ∙ x) ]
          ] in
        (((length-set (set r idx t) idx c ∙ m, cells), kept), here ∙ sym e)

    filled_back :
        (r : Row) (c : Cell) (col : Column) (idx : ℕ)
        → Partial r
        → get_elem? row idx ≡ some c
        → c.ty ≡ col.ty
        → IsClean c
        → (b : Cell) × (get_elem? r idx ≡ some b) × (filled (with_type b col.ty) c ≡ c)
    filled_back r c col idx (_, p) e f h = elim (p idx c e) [
      | inl x ↦ (c, x, ap (λ (t : CellType). filled (with_type c t) c) (sym f) ∙ by_value c c.ty)
      | inr x ↦ (zero_cell, x, ap (λ (t : CellType). filled (with_type zero_cell t) c) (sym f) ∙ h)
    ]

    -- One column: a decoder that reads back the row's cell decodes the column.
    pub fill-Grows :
        (decode : Cell → Bytes → Read) (r : Row) (idx : ℕ) (c : Cell) (bytes rest : Bytes)
        → Partial r
        → idx < length schema.cols
        → get_elem? row idx ≡ some c
        → ((blank : Cell) → blank.ty ≡ c.ty → decode blank bytes ≡ done (filled blank c) rest)
        → (r' : Row) × (fill decode schema r idx bytes ≡ Schema.filled r' rest)
          × Grows r r'
          × At r' idx
    unfolding fill put_read
    fill-Grows decode r idx c bytes rest p h e reads =
        let (d, col, g, f, _, t, clean) = cell_at idx h in
        let same : d ≡ c = cc in
        let (b, at, back) =
          filled_back r c col idx p e (ap (λ (x : Cell). x.ty) (sym same) ∙ t)
            (subst IsClean same clean) in
        let (grows, decoded) =
          set-Grows r idx (with_type b col.ty) c p (ground (arith, fits.0)) e in
        let typed = with_type b col.ty in
        let read : decode typed bytes ≡ done c rest =
          reads typed (sym (ap (λ (x : Cell). x.ty) (sym same) ∙ t))
          ∙ ap (λ (x : Cell). done x rest) back in
        (set (set r idx typed) idx c, rw (fill, put_read, at, f, read) refl, grows, decoded)
