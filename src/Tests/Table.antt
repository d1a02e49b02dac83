-- ===== src/Tests/Table.antt =====
-- Cells and rows of a small table.
use db.Prelude.{
  ℕ, zero, suc, subst, ◌⊎◌, inl, inr, get_elem?, ◌≡◌, ◌≢◌, refl, ap, true, false, List, [], ◌∷◌,
  ◌++◌, some, ◌>>=◌, Bytes, arith,
}
use db.Prelude.Int.{pos, negsuc, to_u64}
use db.Bytes.Order.{cmp}
use db.Bytes.Endian.{be_bytes, le_bytes}
use db.Table.Cell.{
  Cell, zero_cell, unset, type_i64, type_str, done, encode_key, encode_key_as, decode_key,
  encode_val, encode_val_as, escape, encode_str_key,
}
use db.Table.Cell.Escape.{then_by}
use db.Table.Cell.Order.{IsCell}
use db.Table.Cell.RoundTrip.{filled, decode_key-encode_key}
use db.Table.Schema
use db.Table.Schema.{Column, Row}
use db.Table.Schema.RoundTrip.{FitsSchema, IsClean}
use db.Table.RowIter.{decoded, decode_row}
use db.Table.RowIter.RoundTrip.{decode_row-encode_val}
use db.Table.Schema.Order.{tuple_order, cmp-encode_key}
use db.Table.Schema.Prefix.{prefix_order, beyond, cmp-encode_key_prefix}
use db.Table.Db.{hit, select, upsert}
use db.Table.Db.Rows.{select-upsert_row}
use db.Storage.Log.{succeeds}
use db.Storage.Log.Torn.{at_end}
use db.Storage.Run.{Rec, find}
use db.Storage.SortedArray
use db.Storage.Sstable.{file_of}
use db.Storage.Kv.{Kv, get}
use db.Storage.Kv.Lookup.{IsValid, get-first_hit}
use db.Storage.Kv.Write.{is_found}
use db.Tests.Data.{
  int_cell, str_cell, schema, row, later_row, mem_run, old_run, engine, engine-IsValid,
}

typed : type_i64 ≢ unset
typed e = cc

typed_str : type_str ≢ unset
typed_str e = cc

abbrev pub minus_five : Cell
minus_five = int_cell (negsuc 4)

abbrev pub seven : Cell
seven = int_cell (pos 7)

pub minus_five-IsCell : IsCell minus_five
minus_five-IsCell = (typed, omega arith)

pub seven-IsCell : IsCell seven
seven-IsCell = (typed, omega arith)

abbrev pub minus_five_key : Bytes
minus_five_key = 127 ∷ 255 ∷ 255 ∷ 255 ∷ 255 ∷ 255 ∷ 255 ∷ 251 ∷ []

abbrev pub seven_key : Bytes
seven_key = 128 ∷ 0 ∷ 0 ∷ 0 ∷ 0 ∷ 0 ∷ 0 ∷ 7 ∷ []

pub minus_five_encoded : encode_key minus_five [] ≡ some minus_five_key
unfolding encode_key encode_key_as to_u64 be_bytes
minus_five_encoded = refl

pub seven_encoded : encode_key seven [] ≡ some seven_key
unfolding encode_key encode_key_as to_u64 be_bytes
seven_encoded = refl

decode_key-encode_key_example :
    decode_key (int_cell (pos 0)) (minus_five_key ++ 9 ∷ [])
    ≡ done (filled (int_cell (pos 0)) minus_five) (9 ∷ [])
decode_key-encode_key_example =
    decode_key-encode_key minus_five (int_cell (pos 0)) (9 ∷ []) minus_five_key minus_five-IsCell
      refl minus_five_encoded

abbrev word : Cell
word = str_cell (0 ∷ 120 ∷ [])

word_encoded : encode_val word [] ≡ some (2 ∷ 0 ∷ 0 ∷ 0 ∷ 0 ∷ 120 ∷ [])
unfolding encode_val encode_val_as le_bytes
word_encoded = refl

-- The keys of the two rows: t 0, the integer, the string with its escapes, and the last zero.
abbrev pub row_key : Bytes
row_key = 116 ∷ 0 ∷ 1 ∷ 127 ∷ 255 ∷ 255 ∷ 255 ∷ 255 ∷ 255 ∷ 255 ∷ 251 ∷ 2 ∷ 1 ∷ 1 ∷ 120 ∷ 0 ∷ 0 ∷ []

abbrev later_key : Bytes
later_key = 116 ∷ 0 ∷ 1 ∷ 127 ∷ 255 ∷ 255 ∷ 255 ∷ 255 ∷ 255 ∷ 255 ∷ 251 ∷ 2 ∷ 1 ∷ 2 ∷ 0 ∷ 0 ∷ []

pub row_encoded : Schema.encode_key schema row ≡ some row_key
unfolding Schema.encode_key Schema.encode_pkey encode_key encode_key_as encode_str_key escape to_u64
    be_bytes
row_encoded = refl

later_encoded : Schema.encode_key schema later_row ≡ some later_key
unfolding Schema.encode_key Schema.encode_pkey encode_key encode_key_as encode_str_key escape to_u64
    be_bytes
later_encoded = refl

pub str-IsCell : (s : Bytes) → IsCell (str_cell s)
str-IsCell s = (typed_str, omega arith)

cmp-encode_key_example : cmp row_key later_key ≡ tuple_order row later_row (0 ∷ 1 ∷ [])
cmp-encode_key_example =
    cmp-encode_key schema row later_row row_key later_key
      (
        (minus_five, minus_five, refl, refl, minus_five-IsCell, minus_five-IsCell, refl),
        (
          (
            str_cell (0 ∷ 120 ∷ []),
            str_cell (1 ∷ []),
            refl,
            refl,
            str-IsCell (0 ∷ 120 ∷ []),
            str-IsCell (1 ∷ []),
            refl,
          ),
          tt,
        ),
      )
      row_encoded later_encoded

abbrev bound_key : Bytes
bound_key = 116 ∷ 0 ∷ 1 ∷ 127 ∷ 255 ∷ 255 ∷ 255 ∷ 255 ∷ 255 ∷ 255 ∷ 251 ∷ 255 ∷ []

bound_encoded : Schema.encode_key_prefix schema (minus_five ∷ []) true ≡ some bound_key
unfolding Schema.encode_key_prefix Schema.encode_cells encode_key encode_key_as to_u64 be_bytes
bound_encoded = refl

cmp-encode_key_prefix_example :
    cmp row_key bound_key ≡ then_by (prefix_order row (0 ∷ 1 ∷ []) (minus_five ∷ [])) (beyond true)
cmp-encode_key_prefix_example =
    cmp-encode_key_prefix schema row (minus_five ∷ []) true row_key bound_key
      (
        (minus_five, refl, minus_five-IsCell, minus_five-IsCell, refl),
        ((str_cell (0 ∷ 120 ∷ []), refl, str-IsCell (0 ∷ 120 ∷ [])), tt),
      )
      row_encoded bound_encoded

abbrev row_val : Bytes
row_val = 7 ∷ 0 ∷ 0 ∷ 0 ∷ 0 ∷ 0 ∷ 0 ∷ 0 ∷ []

row_val_encoded : Schema.encode_val schema row ≡ some row_val
unfolding Schema.encode_val Schema.encode_cols Schema.is_pkey Schema.is_member encode_val
    encode_val_as to_u64 le_bytes
row_val_encoded = refl

-- The row's key alone, to look it up.
abbrev sought : Row
sought = minus_five ∷ str_cell (0 ∷ 120 ∷ []) ∷ zero_cell ∷ []

sought_encoded : Schema.encode_key schema sought ≡ some row_key
unfolding Schema.encode_key Schema.encode_pkey encode_key encode_key_as encode_str_key escape to_u64
    be_bytes
sought_encoded = refl

abbrev Fits : Cell → Column → Type 0
Fits c col = IsCell c × (c.ty ≡ col.ty) × IsClean c

moved-Fits :
    (d c : Cell) (k col : Column) → Fits d k → some d ≡ some c → some k ≡ some col → Fits c col
moved-Fits d c k col h e f =
    let x : d ≡ c = cc in
    let y : k ≡ col = cc in
    subst (λ (z : Cell). Fits z col) x (subst (λ (z : Column). Fits d z) y h)

row-Fits :
    (i : ℕ) (c : Cell) (col : Column)
    → get_elem? row i ≡ some c
    → get_elem? schema.cols i ≡ some col
    → Fits c col
row-Fits zero c col e f = moved-Fits _ c _ col (minus_five-IsCell, refl, refl) e f
row-Fits (suc zero) c col e f = moved-Fits _ c _ col (str-IsCell (0 ∷ 120 ∷ []), refl, refl) e f
row-Fits (suc (suc zero)) c col e f = moved-Fits _ c _ col (seven-IsCell, refl, refl) e f
row-Fits (suc (suc (suc i))) c col e f = cc

row-FitsSchema : FitsSchema schema row
row-FitsSchema = (refl, (omega arith, (omega arith, tt)), row-Fits)

sought_cells :
    (i : ℕ) (c : Cell)
    → get_elem? row i ≡ some c
    → (get_elem? sought i ≡ some c) ⊎ (get_elem? sought i ≡ some zero_cell)
sought_cells zero c e = inl e
sought_cells (suc zero) c e = inl e
sought_cells (suc (suc zero)) c e = inr refl
sought_cells (suc (suc (suc i))) c e = cc

sought_keys : (i : ℕ) → Schema.is_pkey schema i ≡ true → get_elem? sought i ≡ get_elem? row i
unfolding Schema.is_pkey Schema.is_member
sought_keys zero h = refl
sought_keys (suc zero) h = refl
sought_keys (suc (suc zero)) h = cc
sought_keys (suc (suc (suc i))) h = refl

decode_row-encode_val_example : decode_row schema row_key row_val ≡ decoded row
decode_row-encode_val_example =
    decode_row-encode_val schema row row_key row_val row-FitsSchema row_encoded row_val_encoded
      (omega arith)

select-upsert_row_example :
    (upsert succeeds engine schema row >>= λ r. select r.0 schema sought) ≡ some (row, hit)
select-upsert_row_example =
    select-upsert_row engine mem_run (old_run ∷ []) engine-IsValid schema row sought row_val
      row-FitsSchema row_val_encoded (omega arith) (refl, sought_cells) sought_keys

abbrev row_run : List Rec
row_run = record { key = row_key; val = row_val; deleted = false } ∷ []

-- An engine whose only record is the row, in a file.
abbrev row_engine : Kv
row_engine = record { log = at_end []; mem = SortedArray.empty; main = file_of row_run ∷ [] }

row_engine-IsValid : IsValid row_engine [] (row_run ∷ [])
row_engine-IsValid = record {
  mem_holds = record { keys_eq = refl; vals_eq = refl; deleted_eq = refl; sorted = tt };
  main_eq = refl;
  sorted = ((tt, tt), tt);
}

row_found : is_found (get row_engine row_key) ≡ true
unfolding find cmp
row_found = ap is_found (get-first_hit row_engine [] (row_run ∷ []) row_key row_engine-IsValid)
