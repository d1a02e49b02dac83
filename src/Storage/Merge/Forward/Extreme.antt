-- ===== src/Storage/Merge/Forward/Extreme.antt =====
-- The level that `extreme` chooses holds the smallest head.
use db.Prelude.{
  ℕ, ◌+◌, ◌≡◌, refl, sym, subst, ap, ◌∙◌, true, false, List, [], ◌∷◌, ◌++◌, Option, none, some,
  arith, append_assoc, Bytes, length, get_elem?, inl, inr, Bool-cases, length-append,
}
use db.Bytes.Order.{cmp, is_lt, lt_trans, not_lt_trans}
use db.Storage.Run.{Rec}
use db.Storage.Cursor.{Cursor, current_rec, EmitAll}
use db.Storage.Merge.{improve, extreme_loop, extreme}
use db.Storage.Merge.Reference.{pick, least}

abbrev combine : Option Rec → Option Rec → Option Rec
combine none o = o
combine (some b) o = some (pick b o)

pick_assoc : (b x y : Rec) → pick (pick b (some x)) (some y) ≡ pick b (some (pick x (some y)))
pick_assoc b x y = ground (arith, lt_trans y.key x.key b.key, not_lt_trans y.key x.key b.key)

combine_assoc : (a b c : Option Rec) → combine (combine a b) c ≡ combine a (combine b c)
combine_assoc none b c = refl
combine_assoc (some a) none c = refl
combine_assoc (some a) (some b) none = refl
combine_assoc (some a) (some b) (some c) = ap some (pick_assoc a b c)

get_elem?_middle {ℓ} :
    {A : Type ℓ} (pre : List A) (x : A) (xs : List A)
    → get_elem? (pre ++ x ∷ xs) (length pre) ≡ some x
get_elem?_middle [] x xs = refl
get_elem?_middle (p ∷ pre) x xs = get_elem?_middle pre x xs

module _ {I : Type 0} (c : Cursor I) where
  -- The result of `extreme` and the record that it stands for.
  abbrev pub Points : List I → Option (ℕ × Bytes) → Option Rec → Type 0
  Points levels none none = Unit
  Points levels none (some r) = ⊥
  Points levels (some p) none = ⊥
  Points levels (some (i, k)) (some r) =
      (lv : I) × (get_elem? levels i ≡ some lv) × (current_rec c lv ≡ r) × (k ≡ r.key)

module _ {I : Type 0} (c : Cursor I) where
  improve_invalid :
      (i : ℕ) (lv : I) (best : Option (ℕ × Bytes))
      → c.valid lv ≡ false
      → improve c false i lv best ≡ best
  unfolding improve
  improve_invalid i lv best v = rw v

  improve-Points :
      (levels : List I) (best : Option (ℕ × Bytes)) (b : Option Rec) (i : ℕ) (lv : I)
      → get_elem? levels i ≡ some lv
      → c.valid lv ≡ true
      → Points c levels best b
      → Points c levels (improve c false i lv best) (combine b (some (current_rec c lv)))
  unfolding improve
  improve-Points levels none none i lv e v p = rw v (lv, e, refl, refl)
  improve-Points levels none (some r) i lv e v p = absurd p
  improve-Points levels (some q) none i lv e v p = absurd p
  improve-Points levels (some (j, k)) (some r) i lv e v (lv', e', h, hk) =
      elim (Bool-cases (is_lt (cmp (c.key lv) r.key))) [
        | inl t ↦ rw (v, hk, t) (lv, e, refl, refl)
        | inr t ↦ rw (v, hk, t) (lv', e', h, refl)
      ]

  extreme_loop-least :
      (rest pre all : List I) (runs : List (List Rec)) (i : ℕ) (best : Option (ℕ × Bytes))
      (b : Option Rec)
      → EmitAll c rest runs
      → all ≡ pre ++ rest
      → i ≡ length pre
      → Points c all best b
      → Points c all (extreme_loop c false rest i best) (combine b (least runs))
  unfolding extreme_loop least
  extreme_loop-least [] pre all [] i none none h e l p = p
  extreme_loop-least [] pre all [] i (some q) (some r) h e l p = p
  extreme_loop-least [] pre all [] i none (some r) h e l p = p
  extreme_loop-least [] pre all [] i (some q) none h e l p = p
  extreme_loop-least [] pre all (rs ∷ runs) i best b h e l p = absurd h
  extreme_loop-least (lv ∷ rest) pre all [] i best b h e l p = absurd h
  extreme_loop-least (lv ∷ rest) pre all ([] ∷ runs) i best b (v, h) e l p =
      rw (improve_invalid i lv best v) (
        extreme_loop-least rest (pre ++ lv ∷ []) all runs (i + 1) best b h
          (e ∙ sym (append_assoc pre (lv ∷ []) rest)) (omega (arith, length-append pre (lv ∷ [])))
          p)
  extreme_loop-least (lv ∷ rest) pre all ((r ∷ rs) ∷ runs) i best b ((v, cur, _, _, _), h) e l p =
      let here : get_elem? all i ≡ some lv = rw (e, l) (get_elem?_middle pre lv rest) in
      rw (← combine_assoc b (some r) (least runs)) (
        extreme_loop-least rest (pre ++ lv ∷ []) all runs (i + 1) (improve c false i lv best)
          (combine b (some r)) h (e ∙ sym (append_assoc pre (lv ∷ []) rest))
          (omega (arith, length-append pre (lv ∷ [])))
          (subst (λ (q : Rec). Points c all (improve c false i lv best) (combine b (some q))) cur
            (improve-Points all best b i lv here v p)))

  -- `extreme` is -1 exactly when nothing is ahead; else it is a level whose record is the smallest.
  pub extreme-least :
      (levels : List I) (runs : List (List Rec))
      → EmitAll c levels runs
      → Points c levels (extreme c false levels) (least runs)
  unfolding extreme
  extreme-least levels runs h = extreme_loop-least levels [] levels runs 0 none none h refl refl tt
