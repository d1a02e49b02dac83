-- ===== src/Table/Schema/Member.antt =====
-- table/schema.go (IsPKey, EncodeKey, ColIndex): membership in a list of column indices, and names of columns.
use db.Prelude.{
  zero, suc, ◌+◌, sym, subst, some, Bool-cases, inl, inr, ℕ, ◌≡◌, refl, ap, fun_ext, true, List, [],
  ◌∷◌, ◌++◌, arith, ◌==◌, if◌then◌else◌, Option, Bytes, get_elem?, ◌>>=◌,
}
use db.Table.Cell.{Cell}
use db.Table.Cell
use db.Bytes.Order.{cmp, is_eq, eq_of_cmp}
use db.Table.Schema.{Column, Schema, index_of, col_index, Row, is_member, encode_pkey, tag}

pub member-cons :
    (i p : ℕ) (ps : List ℕ) → is_member i (p ∷ ps) ≡ (if p == i then true else is_member i ps)
unfolding is_member
member-cons i p ps = refl

pub member_self : (p : ℕ) (ps : List ℕ) → is_member p (p ∷ ps) ≡ true
member_self p ps = ground (arith, member-cons p p ps)

pub member_later : (i p : ℕ) (ps : List ℕ) → is_member i ps ≡ true → is_member i (p ∷ ps) ≡ true
member_later i p ps h = ground (arith, member-cons i p ps)

-- The key reads the primary key's cells alone.
pub encode_pkey-frame :
    (row row' : Row) (ps : List ℕ) (key : Bytes)
    → ((i : ℕ) → is_member i ps ≡ true → get_elem? row' i ≡ get_elem? row i)
    → encode_pkey row' ps key ≡ encode_pkey row ps key
unfolding encode_pkey
encode_pkey-frame row row' [] key h = refl
encode_pkey-frame row row' (p ∷ ps) key h =
    let at : get_elem? row' p ≡ get_elem? row p = h p (member_self p ps) in
    rw at (
      ap (λ (f : Cell → Option Bytes). get_elem? row p >>= f)
        (fun_ext (λ (cell : Cell).
          ap (λ (f : Bytes → Option Bytes). Cell.encode_key cell (key ++ tag cell.ty ∷ []) >>= f)
            (fun_ext (λ (key' : Bytes).
              encode_pkey-frame row row' ps key' (λ i k. h i (member_later i p ps k)))))))

index_of-name :
    (name : Bytes) (i : ℕ) (cols : List Column) (k : ℕ)
    → index_of name i cols ≡ some k
    → (j : ℕ) × (col : Column) × (k ≡ i + j) × (get_elem? cols j ≡ some col) × (col.name ≡ name)
unfolding index_of
index_of-name name i [] k h = cc
index_of-name name i (c ∷ cols) k h = elim (Bool-cases (is_eq (cmp c.name name))) [
  | inl e ↦
      let here : some i ≡ some k = rw e at h in
      let same : i ≡ k = cc in (zero, c, omega arith, refl, eq_of_cmp c.name name (ground arith))
  | inr e ↦
      let (j, col, n, g, same) = index_of-name name (suc i) cols k (rw e at h) in
      (suc j, col, omega arith, g, same)
]

-- ColIndex finds a column of the name.
pub col_index-name :
    (schema : Schema) (name : Bytes) (k : ℕ)
    → col_index schema name ≡ some k
    → (col : Column) × (get_elem? schema.cols k ≡ some col) × (col.name ≡ name)
unfolding col_index
col_index-name schema name k h =
    let (j, col, n, g, same) = index_of-name name 0 schema.cols k h in
    let at : k ≡ j = omega arith in
    (col, subst (λ (x : ℕ). get_elem? schema.cols x ≡ some col) (sym at) g, same)
