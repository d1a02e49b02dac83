-- ===== src/Storage/Merge/Forward.antt =====
-- Walking the merged cursor forward emits the reference merge of what its levels emit.
mod Extreme
mod Advance
use Extreme.{Points, extreme-least}
use Advance.{advance_all-skip}
use db.Prelude.{
  ℕ, zero, suc, ◌≤◌, ◌≡◌, refl, sym, ap, ◌∙◌, Bool, true, false, List, [], ◌∷◌, Option, none, some,
  arith, Bytes, map, get_elem?, if◌then◌else◌, inl, inr, take, subst,
}
use native.Mathlib.Nat.{le_refl}
use db.Storage.Run.{Rec}
use db.Storage.Cursor.{Cursor, current_rec, Emits, EmitAll}
use db.Storage.Merge.{
  MergedIter, captured, extreme, settle, merged, valid, key, val, is_deleted, advance_all, step,
  next, merged_cursor,
}
use db.Storage.Merge.Reference.{least, skip, merge, total}
use db.Storage.Merge.Find.{merge_done, merge_emit, total-skip_lt}

module _ {I : Type 0} (c : Cursor I) (fuel : ℕ) where
  settle-none :
      (levels : List I)
      → extreme c false levels ≡ none
      → settle c false levels
        ≡ record { levels = levels; which = none; frontier = none; desc = false }
  unfolding settle
  settle-none levels e = ground (arith, e)

  settle-some :
      (levels : List I) (i : ℕ) (k : Bytes)
      → extreme c false levels ≡ some (i, k)
      → settle c false levels
        ≡ record { levels = levels; which = some i; frontier = captured c k; desc = false }
  unfolding settle
  settle-some levels i k e = ground (arith, e)

  settle-valid_none :
      (levels : List I) → extreme c false levels ≡ none → valid c (settle c false levels) ≡ false
  unfolding valid
  settle-valid_none levels e = rw (settle-none levels e)

  -- At a chosen level the merged cursor is valid, shows its record, and goes on from the levels that
  -- were advanced.
  module _ (levels levels' : List I) (i : ℕ) (k : Bytes) (lv : I)
      (e : extreme c false levels ≡ some (i, k)) (g : get_elem? levels i ≡ some lv)
      (a : advance_all c false (c.key lv) levels ≡ some levels') where
    settle-valid : valid c (settle c false levels) ≡ true
    unfolding valid
    settle-valid = rw (settle-some levels i k e)

    settle-current : current_rec (merged_cursor c fuel) (settle c false levels) ≡ current_rec c lv
    unfolding key val is_deleted
    settle-current = rw (settle-some levels i k e) (ground (arith, g))

    settle-next : next c fuel (settle c false levels) ≡ some (settle c false levels')
    unfolding step valid key
    settle-next = rw (settle-some levels i k e) (ground (arith, g, a))

  module _ (n : ℕ) (levels : List I) (runs : List (List Rec)) (h : EmitAll c levels runs)
      (later : (ls : List I) (qs : List (List Rec))
        → EmitAll c ls qs
        → total qs ≤ n
        → Emits (merged_cursor c fuel) (settle c false ls) (merge n qs)) where
    round :
        (p : Option (ℕ × Bytes)) (o : Option Rec)
        → extreme c false levels ≡ p
        → least runs ≡ o
        → Points c levels p o
        → total runs ≤ suc n
        → Emits (merged_cursor c fuel) (settle c false levels) (merge (suc n) runs)
    round none none e l q t = rw (merge_done (suc n) runs l) (settle-valid_none levels e)
    round none (some r) e l q t = absurd q
    round (some p) none e l q t = absurd q
    round (some (i, k)) (some r) e l (lv, g, cur, hk) t =
        let (levels', a, h') = advance_all-skip c (c.key lv) levels runs h in
        let same_key : c.key lv ≡ r.key = ap (λ (x : Rec). x.key) cur in
        rw (merge_emit n runs r l) (
          settle-valid levels levels' i k lv e g a,
          settle-current levels levels' i k lv e g a ∙ cur,
          settle c false levels',
          settle-next levels levels' i k lv e g a,
          later levels' (map (skip r.key) runs)
              (subst (λ (x : Bytes). EmitAll c levels' (map (skip x) runs)) same_key h')
              (omega (arith, total-skip_lt runs r l)),
        )

  done :
      (levels : List I) (runs : List (List Rec)) (p : Option (ℕ × Bytes)) (o : Option Rec)
      → extreme c false levels ≡ p
      → least runs ≡ o
      → Points c levels p o
      → total runs ≤ 0
      → valid c (settle c false levels) ≡ false
  done levels runs none o e l q t = settle-valid_none levels e
  done levels runs (some p) none e l q t = absurd q
  done levels runs (some p) (some r) e l q t = absurd (omega (arith, total-skip_lt runs r l))

  Emits-settle :
      (n : ℕ) (levels : List I) (runs : List (List Rec))
      → EmitAll c levels runs
      → total runs ≤ n
      → Emits (merged_cursor c fuel) (settle c false levels) (merge n runs)
  Emits-settle zero levels runs h t =
      unfold merge in
      done levels runs (extreme c false levels) (least runs) refl refl
        (extreme-least c levels runs h) t
  Emits-settle (suc n) levels runs h t =
      round n levels runs h (Emits-settle n) (extreme c false levels) (least runs) refl refl
        (extreme-least c levels runs h) t

  -- Over level cursors each of which emits a run without an error, the merged cursor emits the
  -- reference merge of the runs, newest level first, and then ends, without an error.
  pub Emits-merged :
      (levels : List I) (runs : List (List Rec))
      → EmitAll c levels runs
      → Emits (merged_cursor c fuel) (merged c levels) (merge (total runs) runs)
  unfolding merged
  Emits-merged levels runs h = Emits-settle (total runs) levels runs h (le_refl _)
