-- ===== src/Storage/Filter/Live.antt =====
-- Walking the filtered cursor forward emits the records that are not tombstones.
use db.Prelude.{
  ℕ, zero, suc, ◌<◌, ◌≡◌, sym, subst, ap, ◌∙◌, Bool, true, false, List, [], ◌∷◌, some, arith,
  length, if◌then◌else◌, inl, inr, Bool-cases,
}
use db.Storage.Run.{Rec}
use db.Storage.Cursor.{Cursor, Emits}
use db.Storage.Filter.{skip_deleted, filter_deleted, next, filter_cursor}

-- The records that are not tombstones.
abbrev pub live : List Rec → List Rec
live [] = []
live (r ∷ rs) = if r.deleted then live rs else r ∷ live rs

module _ {I : Type 0} (c : Cursor I) where
  skip_end : (fuel : ℕ) (it : I) → c.valid it ≡ false → skip_deleted c (suc fuel) false it ≡ some it
  unfolding skip_deleted
  skip_end fuel it v = ground (arith, v)

  skip_live :
      (fuel : ℕ) (it : I) → c.is_deleted it ≡ false → skip_deleted c (suc fuel) false it ≡ some it
  unfolding skip_deleted
  skip_live fuel it d = ground (arith, d)

  skip_tombstone :
      (fuel : ℕ) (it it' : I)
      → c.valid it ≡ true
      → c.is_deleted it ≡ true
      → c.next it ≡ some it'
      → skip_deleted c (suc fuel) false it ≡ skip_deleted c fuel false it'
  unfolding skip_deleted
  skip_tombstone fuel it it' v d e = ground (arith, v, d, e)

  next_step :
      (fuel : ℕ) (it it' : I)
      → c.next it ≡ some it'
      → next c fuel it ≡ skip_deleted c fuel false it'
  unfolding next
  next_step fuel it it' e = ground (arith, e)

  -- From wherever the cursor below stands, the loop ends without an error on a cursor that emits the
  -- records that are not tombstones.
  skipped :
      (fuel m : ℕ) (it : I) (rs : List Rec)
      → Emits c it rs
      → length rs < m
      → length rs < fuel
      → (it' : I) × (skip_deleted c m false it ≡ some it')
        × Emits (filter_cursor c fuel) it' (live rs)
  skipped fuel zero it rs h l g = absurd (omega arith)
  skipped fuel (suc m) it [] v l g = (it, skip_end m it v, v)
  skipped fuel (suc m) it (r ∷ rs) (v, cur, it1, e, h) l g =
      let flag : c.is_deleted it ≡ r.deleted = ap (λ (x : Rec). x.deleted) cur in
      elim (Bool-cases r.deleted) [
        | inl d ↦
            let (it', e', h') = skipped fuel m it1 rs h (omega arith) (omega arith) in
            (it', skip_tombstone m it it1 v (flag ∙ d) e ∙ e', rw d h')
        | inr d ↦
            let (it', e', h') = skipped fuel fuel it1 rs h (omega arith) (omega arith) in
            (
              it,
              skip_live m it (flag ∙ d),
              subst (Emits (filter_cursor c fuel) it)
                  (sym (ap (λ (b : Bool). if b then live rs else r ∷ live rs) d))
                  (v, cur, it', next_step fuel it it1 e ∙ e', h'),
            )
      ]

  -- Over a cursor that emits these records without an error, with fuel for more than their number,
  -- opening the filtered cursor succeeds, and it emits the records that are not tombstones, in order,
  -- without an error.
  pub Emits-filter_deleted :
      (fuel : ℕ) (it : I) (rs : List Rec)
      → Emits c it rs
      → length rs < fuel
      → (it' : I) × (filter_deleted c fuel it ≡ some it')
        × Emits (filter_cursor c fuel) it' (live rs)
  unfolding filter_deleted
  Emits-filter_deleted fuel it rs h l = skipped fuel fuel it rs h l l
