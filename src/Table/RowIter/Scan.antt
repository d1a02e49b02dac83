-- ===== src/Table/RowIter/Scan.antt =====
-- A walk of the rows is the decoding of the records, to the first that is not in the table.
use db.Prelude.{
  ℕ, zero, suc, ◌<◌, ◌≡◌, refl, sym, ap, fun_ext, ◌∙◌, true, false, List, [], ◌∷◌, Option, none,
  some, Bytes, arith, length,
}
use mathlib.Core.Option
use db.Storage.Run.{Rec}
use db.Storage.Cursor.{Cursor, Emits}
use db.Storage.Merge.{MergedIter}
use db.Storage.Merge.Reference.{total}
use db.Storage.Kv.{Kv}
use db.Storage.Kv.Lookup.{IsValid}
use db.Storage.Levels
use db.Storage.Levels.{Level, kv_cursor}
use db.Storage.Levels.Seek.{sought, length-sought, Emits-seek}
use db.Table.Schema.{Schema, Row}
use db.Table.RowIter.{
  RowIterator, Decoded, past, decoded, broken, panicked, decode_row, decode, new_row_iterator, next,
  collect, seek,
}

-- The rows that these records hold, to the first that is past the table; none if one does not decode
-- before that.
unfoldable pub rows : Schema → List Rec → Option (List Row)
rows schema [] = some []
rows schema (r ∷ rs) =
    let later = rows schema rs in
    elim (decode_row schema r.key r.val) [
      | past ↦ some []
      | decoded row ↦ Option.map (λ rest. row ∷ rest) later
      | broken ↦ none
      | panicked ↦ none
    ]

abbrev pub row_state : Decoded → (Row → Option (List Row)) → Option (List Row)
row_state past f = some []
row_state (decoded row) f = f row
row_state broken f = none
row_state panicked f = none

pub rows_step :
    (schema : Schema) (r : Rec) (rs : List Rec) (d : Decoded)
    → decode_row schema r.key r.val ≡ d
    → rows schema (r ∷ rs) ≡ row_state d (λ row'. Option.map (λ rest. row' ∷ rest) (rows schema rs))
unfolding rows
rows_step schema r rs past h = rw (rows, h) refl
rows_step schema r rs (decoded row) h = rw (rows, h) refl
rows_step schema r rs broken h = rw (rows, h) refl
rows_step schema r rs panicked h = rw (rows, h) refl

module _ {I : Type 0} (c : Cursor I) (schema : Schema) where
  abbrev pub collected : ℕ → Option (RowIterator I) → Option (List Row)
  collected n none = none
  collected n (some r) = collect c n r

  collected_end :
      (n : ℕ) (row : Row) (it : I)
      → c.valid it ≡ false
      → collected (suc n) (decode c schema row it) ≡ some []
  unfolding decode collect
  collected_end n row it v = rw v refl

  -- At a record, by what it decodes to.
  collected_step :
      (n : ℕ) (row : Row) (it it' : I) (d : Decoded)
      → c.valid it ≡ true
      → c.next it ≡ some it'
      → decode_row schema (c.key it) (c.val it) ≡ d
      → collected (suc n) (decode c schema row it)
        ≡ row_state d
            (λ row'. Option.map (λ rest. row' ∷ rest) (collected n (decode c schema row' it')))
  unfolding decode collect next
  collected_step n row it it' past v e h = rw (v, h) refl
  collected_step n row it it' broken v e h = rw (v, h) refl
  collected_step n row it it' panicked v e h = rw (v, h) refl
  collected_step n row it it' (decoded row') v e h = rw (v, h, e) refl

  pub collected-rows :
      (n : ℕ) (row : Row) (it : I) (rs : List Rec)
      → Emits c it rs
      → length rs < n
      → collected n (decode c schema row it) ≡ rows schema rs
  collected-rows zero row it rs h l = absurd (omega arith)
  collected-rows (suc n) row it [] v l = unfold rows in collected_end n row it v
  collected-rows (suc n) row it (r ∷ rs) (v, cur, it', e, h) l =
      let d = decode_row schema r.key r.val in
      let same : decode_row schema (c.key it) (c.val it) ≡ d =
        ap (λ (x : Rec). decode_row schema x.key x.val) cur in
      collected_step n row it it' d v e same
      ∙ ap (row_state d) (
          fun_ext (λ (row' : Row).
            ap (Option.map (λ rest. row' ∷ rest)) (collected-rows n row' it' rs h (omega arith))))
      ∙ sym (rows_step schema r rs d refl)

seek-opened :
    (fuel : ℕ) (kv : Kv) (schema : Schema) (key : Bytes) (it : MergedIter Level)
    → Levels.seek fuel kv key ≡ some it
    → seek fuel kv schema key ≡ decode (kv_cursor fuel) schema [] it
unfolding seek new_row_iterator
seek-opened fuel kv schema key it e = ground (arith, e)

-- In a valid engine, with fuel for more than the records of all levels, walking `Seek` of a table forward emits the rows
-- that the live records from the key on decode to, in the order of the keys, up to the first record that is past the
-- table. It meets an error exactly if one of the records before that does not decode.
pub seek-rows :
    (fuel : ℕ) (kv : Kv) (schema : Schema) (key : Bytes) (rs : List Rec) (runs : List (List Rec))
    → IsValid kv rs runs
    → total (rs ∷ runs) < fuel
    → collected (kv_cursor fuel) schema fuel (seek fuel kv schema key)
      ≡ rows schema (sought key (rs ∷ runs))
seek-rows fuel kv schema key rs runs v enough =
    let (it, e, h) = Emits-seek kv rs runs v fuel key enough in
    ap (collected (kv_cursor fuel) schema fuel) (seek-opened fuel kv schema key it e)
    ∙ collected-rows (kv_cursor fuel) schema fuel [] it (sought key (rs ∷ runs)) h
        (omega (arith, length-sought key (rs ∷ runs)))
