-- ===== src/Sql/Engine/Selected.antt =====
-- sql/engine.go (execSelect, matchingRows): what a SELECT answers.
use db.Prelude.{
  ℕ, ◌<◌, ◌≡◌, refl, sym, ap, ◌∙◌, false, List, [], ◌∷◌, ◌++◌, Option, none, some, Bytes, subst,
}
use mathlib.Core.Option
use db.Storage.Run.{Rec}
use db.Storage.Kv.{Kv}
use db.Storage.Kv.Lookup.{IsValid}
use db.Storage.Merge.Reference.{total}
use db.Storage.Levels.{kv_cursor}
use db.Storage.Levels.Seek.{sought}
use db.Storage.Ranged.{ranged_cursor}
use db.Storage.Ranged.Ascending.{up_to}
use db.Table.Schema.{Schema, Row, encode_key_prefix}
use db.Table.RowIter.{Decoded, past, decoded, broken, panicked, decode_row}
use db.Table.RowIter.Scan.{rows, rows_step, row_state}
use db.Sql.Expr.{Expr}
use db.Sql.Planner.{RangeReq, matched, is_descending, suffix_positive, make_range}
use db.Sql.Select.Ascending.{exec_cond-opened}
use db.Sql.Engine.{Engine, Result, ok, bind, of_option, cannot_select}
use db.Sql.Engine.Exec.{walk, select_rows, matching_rows}
use db.Sql.Engine.Walk.{each, walked, scanned, next_state, first_state, walked_at, opened-scanned}

module _ {ℓ} {A : Type ℓ} (schema : Schema) (f : Row → Result A) where
  abbrev Agrees : Result (List A) → Option (List Row) → Type ℓ
  Agrees r none = Unit
  Agrees r (some found) = r ≡ each f found

  abbrev each_more : Row → Result (List A) → Result (List A)
  each_more row later = bind (f row) (λ x. bind later (λ xs. ok (x ∷ xs)))

  walked_step :
      (d : Decoded) (o : Option (List Row)) (later : Result (List A))
      → Agrees later o
      → Agrees
          (next_state d (λ row. each_more row later) (ok []))
          (row_state d (λ row. Option.map (λ rest. row ∷ rest) o))
  unfolding each
  walked_step past o later h = refl
  walked_step (decoded row) none later h = tt
  walked_step (decoded row) (some found) later h = ap (each_more row) h
  walked_step broken o later h = tt
  walked_step panicked o later h = tt

  walked-Agrees : (rs : List Rec) → Agrees (walked schema f rs) (rows schema rs)
  unfolding walked rows each
  walked-Agrees [] = refl
  walked-Agrees (r ∷ rs) =
      let d = decode_row schema r.key r.val in
      subst (λ o. Agrees (walked schema f (r ∷ rs)) o) (sym (rows_step schema r rs d refl))
        (walked_step d (rows schema rs) (walked schema f rs) (walked-Agrees rs))

  walked-rows :
      (rs : List Rec) (found : List Row)
      → rows schema rs ≡ some found
      → walked schema f rs ≡ each f found
  walked-rows rs found e = subst (Agrees (walked schema f rs)) e (walked-Agrees rs)

  first_step :
      (d : Decoded) (o : Option (List Row)) (found : List Row) (later : Result (List A))
      → row_state d (λ row. Option.map (λ rest. row ∷ rest) o) ≡ some found
      → first_state schema f d later ≡ later
  first_step past o found later h = refl
  first_step (decoded row) o found later h = refl
  first_step broken o found later h = cc
  first_step panicked o found later h = cc

  pub scanned-rows :
      (rs : List Rec) (found : List Row)
      → rows schema rs ≡ some found
      → scanned schema f rs ≡ each f found
  unfolding scanned
  scanned-rows [] found e = walked-rows [] found e
  scanned-rows (r ∷ rs) found e =
      let d = decode_row schema r.key r.val in
      first_step d (rows schema rs) found (walked schema f (r ∷ rs))
        (sym (rows_step schema r rs d refl) ∙ e)
      ∙ walked-rows (r ∷ rs) found e

  -- These records decode to these rows of the table, one by one.
  abbrev pub Decodes : List Rec → List Row → Type 0
  Decodes [] [] = Unit
  Decodes (r ∷ rs) (row ∷ found) = (decode_row schema r.key r.val ≡ decoded row) × Decodes rs found
  Decodes _ _ = ⊥

  walked-broken :
      (good : List Rec) (found : List Row) (bad : Rec) (rest : List Rec)
      → Decodes good found
      → decode_row schema bad.key bad.val ≡ broken
      → walked schema f (good ++ bad ∷ rest) ≡ each f found
  unfolding each
  walked-broken [] [] bad rest h b = walked_at schema f bad rest broken b
  walked-broken [] (row ∷ found) bad rest h b = absurd h
  walked-broken (r ∷ good) [] bad rest h b = absurd h
  walked-broken (r ∷ good) (row ∷ found) bad rest (d, h) b =
      walked_at schema f r (good ++ bad ∷ rest) (decoded row) d
      ∙ ap (each_more row) (walked-broken good found bad rest h b)

  scanned-broken :
      (r : Rec) (good : List Rec) (found : List Row) (bad : Rec) (rest : List Rec)
      → Decodes (r ∷ good) found
      → decode_row schema bad.key bad.val ≡ broken
      → scanned schema f (r ∷ good ++ bad ∷ rest) ≡ each f found
  unfolding scanned
  scanned-broken r good [] bad rest h b = absurd h
  scanned-broken r good (row ∷ found) bad rest (d, h) b =
      ap (λ (x : Decoded). first_state schema f x (walked schema f (r ∷ good ++ bad ∷ rest))) d
      ∙ walked-broken (r ∷ good) (row ∷ found) bad rest (d, h) b

each_ok : (found : List Row) → each ok found ≡ ok found
unfolding each
each_ok [] = refl
each_ok (row ∷ found) = ap (λ (r : Result (List Row)). bind r (λ xs. ok (row ∷ xs))) (each_ok found)

module _ (fuel : ℕ) (kv : Kv) (schema : Schema) (cond : Option Expr) (req : RangeReq)
    (start stop : Bytes) (rs : List Rec) (runs : List (List Rec)) (v : IsValid kv rs runs)
    (enough : total (rs ∷ runs) < fuel) (m : make_range schema cond ≡ matched req)
    (d : is_descending req.start_cmp ≡ false)
    (a : encode_key_prefix schema req.start (suffix_positive req.start_cmp) ≡ some start)
    (b : encode_key_prefix schema req.stop (suffix_positive req.stop_cmp) ≡ some stop) where
  select_rows-scanned {ℓ} :
      {A : Type ℓ} (f : Row → Result A)
      → select_rows f fuel kv schema cond ≡ scanned schema f (up_to stop (sought start (rs ∷ runs)))
  unfolding select_rows
  select_rows-scanned f =
      let (it, e, h, l) =
        exec_cond-opened fuel kv schema cond req start stop rs runs v enough m d a b in
      let c = ranged_cursor (kv_cursor fuel) in
      ap (λ o. bind (of_option cannot_select o) (walk c f fuel)) e
      ∙ opened-scanned c schema f fuel [] it (up_to stop (sought start (rs ∷ runs))) h l

  -- In a valid engine, with fuel for more than the records of all levels, for a WHERE that plans to an
  -- ascending range with encoded bounds, where of the live records between the bounds the first one or
  -- more decode to rows of the table, and the next does not decode, with an error: the rows before that
  -- record are what UPDATE and DELETE take for the whole selection, with no error.
  pub matching_rows-truncated :
      (r : Rec) (good : List Rec) (bad : Rec) (rest : List Rec) (found : List Row)
      → up_to stop (sought start (rs ∷ runs)) ≡ r ∷ good ++ bad ∷ rest
      → Decodes schema ok (r ∷ good) found
      → decode_row schema bad.key bad.val ≡ broken
      → matching_rows fuel kv schema cond ≡ ok found
  unfolding matching_rows
  matching_rows-truncated r good bad rest found e h x =
      select_rows-scanned ok
      ∙ ap (scanned schema ok) e
      ∙ scanned-broken schema ok r good found bad rest h x
      ∙ each_ok found
