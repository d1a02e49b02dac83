-- ===== src/Table/Schema/Prefix.antt =====
-- A row's key against a padded prefix of key columns: the bounds of a range scan.
use db.Prelude.{
  ℕ, ◌≡◌, refl, sym, ◌∙◌, ap, Bool, true, false, List, [], ◌∷◌, ◌++◌, append_assoc, append-nil,
  Bytes, Option, some, ◌>>=◌, All, get_elem?, if◌then◌else◌, Ordering, lt, eq, gt,
}
use db.Bytes.Order.{cmp, cmp-append}
use db.Table.Cell.{Cell, CellType, unset, type_i64, type_str}
use db.Table.Cell.Escape.{then_by}
use db.Table.Cell.Order.{IsCell, cell_order, key_form, encode_key-key_form, cmp-key_form}
use db.Table.Schema.{Schema, Row, tag, encode_cells, encode_key, encode_key_prefix}
use db.Table.Schema.Order.{
  Encodes, tuple_form, encode_pkey-tuple_form, cmp-cons, then_by_assoc, cells_order,
}

-- The key columns of a row have the types of the cells, which are a prefix of them.
abbrev pub AgreePrefix : Row → List ℕ → List Cell → Type 0
AgreePrefix row pkey [] = All (Encodes row) pkey
AgreePrefix row [] (c ∷ cells) = ⊥
AgreePrefix row (idx ∷ pkey) (c ∷ cells) =
    ((x : Cell) × (get_elem? row idx ≡ some x) × IsCell x × IsCell c × (x.ty ≡ c.ty))
    × AgreePrefix row pkey cells

-- The row's first key columns against the cells.
abbrev pub prefix_order : Row → List ℕ → List Cell → Ordering
prefix_order row pkey [] = eq
prefix_order row [] (c ∷ cells) = eq
prefix_order row (idx ∷ pkey) (c ∷ cells) =
    then_by (cells_order (get_elem? row idx) (some c)) (prefix_order row pkey cells)

abbrev prefix_form : List Cell → Bytes
prefix_form [] = []
prefix_form (c ∷ cells) = tag c.ty ∷ (key_form c.ty c ++ prefix_form cells)

abbrev padding : Bool → Bytes
padding positive = if positive then 255 ∷ [] else []

abbrev pub beyond : Bool → Ordering
beyond positive = if positive then lt else gt

-- A key goes on with a type tag or its last zero, which is before 255 and behind the end.
cmp-padding :
    (row : Row) (pkey : List ℕ) (positive : Bool)
    → All (Encodes row) pkey
    → cmp (tuple_form row pkey ++ 0 ∷ []) (padding positive) ≡ beyond positive
unfolding cmp
cmp-padding row [] true h = refl
cmp-padding row [] false h = refl
cmp-padding row (idx ∷ pkey) false ((x, e, v), h) = rw e refl
cmp-padding row (idx ∷ pkey) true ((x, e, v), h) = rw e (by_tag x.ty)
  where
    by_tag :
        (t : CellType)
        → cmp (tag t ∷ ((key_form x.ty x ++ tuple_form row pkey) ++ 0 ∷ [])) (255 ∷ []) ≡ lt
    by_tag unset = refl
    by_tag type_i64 = refl
    by_tag type_str = refl

cmp-prefix_form :
    (row : Row) (pkey : List ℕ) (cells : List Cell) (positive : Bool)
    → AgreePrefix row pkey cells
    → cmp (tuple_form row pkey ++ 0 ∷ []) (prefix_form cells ++ padding positive)
      ≡ then_by (prefix_order row pkey cells) (beyond positive)
cmp-prefix_form row pkey [] positive h = cmp-padding row pkey positive h
cmp-prefix_form row [] (c ∷ cells) positive h = absurd h
cmp-prefix_form row (idx ∷ pkey) (c ∷ cells) positive ((x, e, v, w, t), h) = rw e (
    ap
      (λ (u : CellType).
        cmp (tag u ∷ ((key_form x.ty x ++ tuple_form row pkey) ++ 0 ∷ []))
          (tag c.ty ∷ ((key_form c.ty c ++ prefix_form cells) ++ padding positive)))
      t
    ∙ cmp-cons (tag c.ty) ((key_form x.ty x ++ tuple_form row pkey) ++ 0 ∷ [])
        ((key_form c.ty c ++ prefix_form cells) ++ padding positive)
    ∙ rw
        (
          append_assoc (key_form x.ty x) (tuple_form row pkey) (0 ∷ []),
          append_assoc (key_form c.ty c) (prefix_form cells) (padding positive),
          cmp-key_form x c (tuple_form row pkey ++ 0 ∷ []) (prefix_form cells ++ padding positive) v
              w t,
          cmp-prefix_form row pkey cells positive h,
        )
        (then_by_assoc (cell_order x c) (prefix_order row pkey cells) (beyond positive)))

AgreePrefix-row :
    (row : Row) (pkey : List ℕ) (cells : List Cell)
    → AgreePrefix row pkey cells
    → All (Encodes row) pkey
AgreePrefix-row row pkey [] h = h
AgreePrefix-row row [] (c ∷ cells) h = tt
AgreePrefix-row row (idx ∷ pkey) (c ∷ cells) ((x, e, v, w, t), h) =
    ((x, e, v), AgreePrefix-row row pkey cells h)

encode_cells-prefix_form :
    (row : Row) (pkey : List ℕ) (cells : List Cell) (key : Bytes)
    → AgreePrefix row pkey cells
    → encode_cells cells key ≡ some (key ++ prefix_form cells)
unfolding encode_cells
encode_cells-prefix_form row pkey [] key h = ap some (sym (append-nil key))
encode_cells-prefix_form row [] (c ∷ cells) key h = absurd h
encode_cells-prefix_form row (idx ∷ pkey) (c ∷ cells) key ((x, e, v, w, t), h) =
    rw
      (
        encode_key-key_form c (key ++ tag c.ty ∷ []) (w.0),
        encode_cells-prefix_form row pkey cells ((key ++ tag c.ty ∷ []) ++ key_form c.ty c) h,
      )
      (ap some (
        append_assoc (key ++ tag c.ty ∷ []) (key_form c.ty c) (prefix_form cells)
        ∙ append_assoc key (tag c.ty ∷ []) (key_form c.ty c ++ prefix_form cells)))

-- A prefix of valid cells encodes.
pub some-encode_key_prefix :
    (schema : Schema) (row : Row) (cells : List Cell) (positive : Bool)
    → AgreePrefix row schema.pkey cells
    → (b : Bytes) × (encode_key_prefix schema cells positive ≡ some b)
unfolding encode_key_prefix
some-encode_key_prefix schema row cells positive h =
    let pre = schema.table ++ 0 ∷ [] in
    let key = pre ++ prefix_form cells in
    (
      (if positive then key ++ 255 ∷ [] else key),
      rw (encode_cells-prefix_form row schema.pkey cells pre h) refl,
    )

-- Where the cells are not more than the key columns and are valid and of the types of the row's valid
-- key cells, bytes.Compare of the row's key with the encoded prefix of cells is the order of the row's
-- first key columns against the cells; on a tie the row is before the prefix that is padded for
-- +infinity, and behind the one that is padded for -infinity.
pub cmp-encode_key_prefix :
    (schema : Schema) (row : Row) (cells : List Cell) (positive : Bool) (k b : Bytes)
    → AgreePrefix row schema.pkey cells
    → encode_key schema row ≡ some k
    → encode_key_prefix schema cells positive ≡ some b
    → cmp k b ≡ then_by (prefix_order row schema.pkey cells) (beyond positive)
unfolding encode_key encode_key_prefix
cmp-encode_key_prefix schema row cells positive k b h i j =
    let pre = schema.table ++ 0 ∷ [] in
    let f = tuple_form row schema.pkey in
    let g = prefix_form cells in
    let u = encode_pkey-tuple_form row schema.pkey pre (AgreePrefix-row row schema.pkey cells h) in
    let v = encode_cells-prefix_form row schema.pkey cells pre h in
    let x : k ≡ (pre ++ f) ++ 0 ∷ [] = cc in
    let y : b ≡ (pre ++ g) ++ padding positive =
      padded positive (pre ++ g) (ap (λ (o : Option Bytes). o >>= pad) (sym v) ∙ j) in
    rw
      (
        x,
        y,
        append_assoc pre f (0 ∷ []),
        append_assoc pre g (padding positive),
        cmp-append pre (f ++ 0 ∷ []) (g ++ padding positive),
      )
      (cmp-prefix_form row schema.pkey cells positive h)
  where
    pad : Bytes → Option Bytes
    pad key = some (if positive then key ++ 255 ∷ [] else key)

    padded :
        (p : Bool) (q : Bytes) → some (if p then q ++ 255 ∷ [] else q) ≡ some b → b ≡ q ++ padding p
    padded true q e = cc
    padded false q e = let same : q ++ [] ≡ q = append-nil q in cc
