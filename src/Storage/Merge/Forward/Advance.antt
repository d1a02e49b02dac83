-- ===== src/Storage/Merge/Forward/Advance.antt =====
-- Advancing every level that sits on a key passes that key in every run.
use db.Prelude.{◌≡◌, refl, ap, false, List, [], ◌∷◌, some, arith, Bytes, map, inl, inr, Bool-cases}
use db.Bytes.Order.{cmp, is_eq}
use db.Storage.Run.{Rec}
use db.Storage.Cursor.{Cursor, Emits, EmitAll}
use db.Storage.Merge.{advance, move_past, advance_all}
use db.Storage.Merge.Reference.{skip}

module _ {I : Type 0} (c : Cursor I) (k : Bytes) where
  moved-skip :
      (lv : I) (rs : List Rec)
      → Emits c lv rs
      → (lv' : I) × (move_past c false k lv ≡ some lv') × Emits c lv' (skip k rs)
  unfolding move_past advance skip
  moved-skip lv [] v = (lv, rw v, v)
  moved-skip lv (r ∷ rs) (v, cur, lv', e, h) =
      let same : c.key lv ≡ r.key = ap (λ (x : Rec). x.key) cur in
      elim (Bool-cases (is_eq (cmp r.key k))) [
        | inl t ↦ (lv', rw (v, same, t) e, rw t h)
        | inr t ↦ (lv, rw (v, same, t), rw t (v, cur, lv', e, h))
      ]

  pub advance_all-skip :
      (levels : List I) (runs : List (List Rec))
      → EmitAll c levels runs
      → (levels' : List I) × (advance_all c false k levels ≡ some levels')
        × EmitAll c levels' (map (skip k) runs)
  unfolding advance_all
  advance_all-skip [] [] h = ([], refl, tt)
  advance_all-skip [] (rs ∷ runs) h = absurd h
  advance_all-skip (lv ∷ lvs) [] h = absurd h
  advance_all-skip (lv ∷ lvs) (rs ∷ runs) (g, h) =
      let (lv', e, p) = moved-skip lv rs g in
      let (lvs', es, q) = advance_all-skip lvs runs h in (lv' ∷ lvs', ground (arith, e, es), (p, q))
