-- ===== src/Table/Schema/Order.antt =====
-- The keys of one table's rows, in the order of the primary-key columns.
use db.Prelude.{
  ℕ, ◌≡◌, refl, sym, ◌∙◌, ap, List, [], ◌∷◌, ◌++◌, append_assoc, append-nil, All-imp, arith, Bytes,
  Option, none, some, All, get_elem?, Ordering, lt, eq, gt,
}
use db.Bytes.Order.{cmp, cmp-append, cmp_refl}
use db.Table.Cell.{Cell, CellType}
use db.Table.Cell.Escape.{then_by}
use db.Table.Cell.Order.{IsCell, cell_order, key_form, encode_key-key_form, cmp-key_form}
use db.Table.Schema.{Schema, Row, tag, encode_pkey, encode_key}

-- Two rows have cells of one type in a column, both valid.
abbrev pub Agree : Row → Row → ℕ → Type 0
Agree a b idx =
    (x : Cell) × (y : Cell) × (get_elem? a idx ≡ some x)
    × (get_elem? b idx ≡ some y)
    × IsCell x
    × IsCell y
    × (x.ty ≡ y.ty)

abbrev pub cells_order : Option Cell → Option Cell → Ordering
cells_order (some x) (some y) = cell_order x y
cells_order _ _ = eq

-- The tuples of primary-key cells, first column first.
abbrev pub tuple_order : Row → Row → List ℕ → Ordering
tuple_order a b [] = eq
tuple_order a b (idx ∷ pkey) =
    then_by (cells_order (get_elem? a idx) (get_elem? b idx)) (tuple_order a b pkey)

-- What the key loop appends for one row.
abbrev pub column_form : Option Cell → Bytes → Bytes
column_form none rest = []
column_form (some c) rest = tag c.ty ∷ (key_form c.ty c ++ rest)

abbrev pub tuple_form : Row → List ℕ → Bytes
tuple_form row [] = []
tuple_form row (idx ∷ pkey) = column_form (get_elem? row idx) (tuple_form row pkey)

abbrev pub Encodes : Row → ℕ → Type 0
Encodes row idx = (x : Cell) × (get_elem? row idx ≡ some x) × IsCell x

pub encode_pkey-tuple_form :
    (row : Row) (pkey : List ℕ) (key : Bytes)
    → All (Encodes row) pkey
    → encode_pkey row pkey key ≡ some (key ++ tuple_form row pkey)
unfolding encode_pkey
encode_pkey-tuple_form row [] key h = ap some (sym (append-nil key))
encode_pkey-tuple_form row (idx ∷ pkey) key ((x, e, v), h) =
    rw
      (
        e,
        encode_key-key_form x (key ++ tag x.ty ∷ []) (v.0),
        encode_pkey-tuple_form row pkey ((key ++ tag x.ty ∷ []) ++ key_form x.ty x) h,
      )
      (ap some (
        append_assoc (key ++ tag x.ty ∷ []) (key_form x.ty x) (tuple_form row pkey)
        ∙ append_assoc key (tag x.ty ∷ []) (key_form x.ty x ++ tuple_form row pkey)))

Agree-left : (a b : Row) (pkey : List ℕ) → All (Agree a b) pkey → All (Encodes a) pkey
Agree-left a b pkey h = All-imp (λ (idx : ℕ) (g : Agree a b idx). (g.0, g.2, g.4)) pkey h

Agree-right : (a b : Row) (pkey : List ℕ) → All (Agree a b) pkey → All (Encodes b) pkey
Agree-right a b pkey h = All-imp (λ (idx : ℕ) (g : Agree a b idx). (g.1, g.3, g.5)) pkey h

pub cmp-cons : (x : ℕ) (a b : Bytes) → cmp (x ∷ a) (x ∷ b) ≡ cmp a b
unfolding cmp
cmp-cons x a b = ground arith

pub then_by_assoc : (o p q : Ordering) → then_by o (then_by p q) ≡ then_by (then_by o p) q
then_by_assoc lt p q = refl
then_by_assoc eq p q = refl
then_by_assoc gt p q = refl

cmp-tuple_form :
    (a b : Row) (pkey : List ℕ) (r s : Bytes)
    → All (Agree a b) pkey
    → cmp (tuple_form a pkey ++ r) (tuple_form b pkey ++ s)
      ≡ then_by (tuple_order a b pkey) (cmp r s)
cmp-tuple_form a b [] r s h = refl
cmp-tuple_form a b (idx ∷ pkey) r s ((x, y, e, f, v, w, t), h) =
    rw (e, f)
      (ap
          (λ (u : CellType).
            cmp (tag u ∷ ((key_form x.ty x ++ tuple_form a pkey) ++ r))
              (tag y.ty ∷ ((key_form y.ty y ++ tuple_form b pkey) ++ s)))
          t
        ∙ cmp-cons (tag y.ty) ((key_form x.ty x ++ tuple_form a pkey) ++ r)
            ((key_form y.ty y ++ tuple_form b pkey) ++ s)
        ∙ rw
            (
              append_assoc (key_form x.ty x) (tuple_form a pkey) r,
              append_assoc (key_form y.ty y) (tuple_form b pkey) s,
              cmp-key_form x y (tuple_form a pkey ++ r) (tuple_form b pkey ++ s) v w t,
              cmp-tuple_form a b pkey r s h,
            )
            (then_by_assoc (cell_order x y) (tuple_order a b pkey) (cmp r s)))

then_by-eq : (o : Ordering) → then_by o eq ≡ o
then_by-eq lt = refl
then_by-eq eq = refl
then_by-eq gt = refl

-- bytes.Compare on the keys of two rows of one table is the order of their primary-key tuples, where
-- the rows have valid key cells, of one type in each column.
pub cmp-encode_key :
    (schema : Schema) (a b : Row) (ka kb : Bytes)
    → All (Agree a b) schema.pkey
    → encode_key schema a ≡ some ka
    → encode_key schema b ≡ some kb
    → cmp ka kb ≡ tuple_order a b schema.pkey
unfolding encode_key
cmp-encode_key schema a b ka kb h i j =
    let pre = schema.table ++ 0 ∷ [] in
    let fa = tuple_form a schema.pkey in
    let fb = tuple_form b schema.pkey in
    let x : ka ≡ (pre ++ fa) ++ 0 ∷ [] =
      key_of a ka (encode_pkey-tuple_form a schema.pkey pre (Agree-left a b schema.pkey h)) i in
    let y : kb ≡ (pre ++ fb) ++ 0 ∷ [] =
      key_of b kb (encode_pkey-tuple_form b schema.pkey pre (Agree-right a b schema.pkey h)) j in
    rw
      (
        x,
        y,
        append_assoc pre fa (0 ∷ []),
        append_assoc pre fb (0 ∷ []),
        cmp-append pre (fa ++ 0 ∷ []) (fb ++ 0 ∷ []),
        cmp-tuple_form a b schema.pkey (0 ∷ []) (0 ∷ []) h,
        cmp_refl (0 ∷ []),
      )
      (then_by-eq (tuple_order a b schema.pkey))
  where
    key_of :
        (row : Row) (k : Bytes) {f : Bytes}
        → encode_pkey row schema.pkey (schema.table ++ 0 ∷ []) ≡ some f
        → encode_key schema row ≡ some k
        → k ≡ f ++ 0 ∷ []
    key_of row k p q = cc
