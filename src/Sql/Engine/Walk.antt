-- ===== src/Sql/Engine/Walk.antt =====
-- sql/engine.go: the loops of execSelect and matchingRows over the rows that a WHERE selects.
use db.Prelude.{
  ℕ, zero, suc, ◌<◌, ◌≡◌, refl, sym, ap, fun_ext, ◌∙◌, true, false, List, [], ◌∷◌, some, arith,
  length,
}
use db.Storage.Run.{Rec}
use db.Storage.Cursor.{Cursor, Emits}
use db.Table.Schema.{Schema, Row}
use db.Table.RowIter.{RowIterator, Decoded, past, decoded, broken, panicked, decode_row, decode}
use db.Table.RowIter.Scan.{rows}
use db.Sql.Engine.{Result, ok, error, panic, stuck, bind, of_option, cannot_select}
use db.Sql.Engine.Exec.{next_quiet, walk}

bind_assoc {ℓ κ} :
    {A : Type ℓ} {B C : Type κ} (m : Result A) (g : A → Result B) (h : B → Result C)
    → bind (bind m g) h ≡ bind m (λ a. bind (g a) h)
bind_assoc (ok a) g h = refl
bind_assoc (error e) g h = refl
bind_assoc panic g h = refl
bind_assoc stuck g h = refl

-- Every row in turn, to the first that f refuses.
unfoldable pub each {ℓ} : {A : Type ℓ} → (Row → Result A) → List Row → Result (List A)
each f [] = ok []
each f (row ∷ rows) = bind (f row) (λ x. bind (each f rows) (λ xs. ok (x ∷ xs)))

abbrev pub next_state {ℓ} : {A : Type ℓ} → Decoded → (Row → Result A) → Result A → Result A
next_state past f done = done
next_state (decoded row) f done = f row
next_state broken f done = done
next_state panicked f done = panic

-- The loop on these records: a record that does not decode ends it, like one past the table.
unfoldable pub walked {ℓ} : {A : Type ℓ} → Schema → (Row → Result A) → List Rec → Result (List A)
walked schema f [] = ok []
walked schema f (r ∷ rs) =
    let later = walked schema f rs in
    next_state (decode_row schema r.key r.val)
      (λ row. bind (f row) (λ x. bind later (λ xs. ok (x ∷ xs)))) (ok [])

module _ {ℓ} {A : Type ℓ} (schema : Schema) (f : Row → Result A) where
  pub walked_at :
      (r : Rec) (rs : List Rec) (d : Decoded)
      → decode_row schema r.key r.val ≡ d
      → walked schema f (r ∷ rs)
        ≡ next_state d
            (λ row. bind (f row) (λ x. bind (walked schema f rs) (λ xs. ok (x ∷ xs))))
            (ok [])
  unfolding walked
  walked_at r rs d h = rw (walked, h) refl

  abbrev pub first_state : Decoded → Result (List A) → Result (List A)
  first_state broken later = error cannot_select
  first_state panicked later = error cannot_select
  first_state _ later = later

  -- The whole SELECT: an error at the first record is reported.
  unfoldable pub scanned : List Rec → Result (List A)
  unfolding walked
  scanned [] = ok []
  scanned (r ∷ rs) = first_state (decode_row schema r.key r.val) (walked schema f (r ∷ rs))

module _ {ℓ} {I : Type 0} {A : Type ℓ} (c : Cursor I) (schema : Schema) (f : Row → Result A) where
  abbrev at : I → Row → RowIterator I
  at it row = record { schema = schema; iter = it; valid = true; row = row }

  abbrev ended : I → Row → RowIterator I
  ended it row = record { schema = schema; iter = it; valid = false; row = row }

  after_next : ℕ → RowIterator I → Result (List A)
  after_next n r = bind (next_quiet c r) (λ r'. walk c f n r')

  walk-ended : (n : ℕ) (it : I) (row : Row) → walk c f (suc n) (ended it row) ≡ ok []
  unfolding walk
  walk-ended n it row = refl

  walk-at :
      (n : ℕ) (it : I) (row : Row)
      → walk c f (suc n) (at it row)
        ≡ bind (f row) (λ x. bind (after_next n (at it row)) (λ xs. ok (x ∷ xs)))
  unfolding walk after_next
  walk-at n it row = ap (bind (f row)) (
      fun_ext
        (λ (x : A). sym (bind_assoc (next_quiet c (at it row)) (walk c f n) (λ xs. ok (x ∷ xs)))))

  -- Next, by what the record decodes to.
  next_at :
      (n : ℕ) (it it' : I) (row : Row) (d : Decoded)
      → c.next it ≡ some it'
      → c.valid it' ≡ true
      → decode_row schema (c.key it') (c.val it') ≡ d
      → after_next (suc n) (at it row)
        ≡ next_state d (λ row'. walk c f (suc n) (at it' row')) (ok [])
  unfolding after_next next_quiet walk
  next_at n it it' row past e v h = rw (after_next, next_quiet, e, v, h) refl
  next_at n it it' row (decoded row') e v h = rw (after_next, next_quiet, e, v, h) refl
  next_at n it it' row broken e v h = rw (after_next, next_quiet, e, v, h) refl
  next_at n it it' row panicked e v h = rw (after_next, next_quiet, e, v, h) refl

  next_ended :
      (n : ℕ) (it it' : I) (row : Row)
      → c.next it ≡ some it'
      → c.valid it' ≡ false
      → after_next (suc n) (at it row) ≡ ok []
  unfolding after_next next_quiet walk
  next_ended n it it' row e v = rw (after_next, next_quiet, e, v) refl

  -- Next and the rest of the loop, by the records behind.
  next-walked :
      (n : ℕ) (it it' : I) (row : Row) (rs : List Rec)
      → c.next it ≡ some it'
      → Emits c it' rs
      → length rs < n
      → after_next n (at it row) ≡ walked schema f rs
  next-walked zero it it' row rs e h l = absurd (omega arith)
  next-walked (suc n) it it' row [] e v l = unfold walked in next_ended n it it' row e v
  next-walked (suc n) it it' row (r ∷ rs) e (v, cur, it'', e', h) l =
      let d = decode_row schema r.key r.val in
      let same : decode_row schema (c.key it') (c.val it') ≡ d =
        ap (λ (x : Rec). decode_row schema x.key x.val) cur in
      next_at n it it' row d e v same
      ∙ ap (λ (g : Row → Result (List A)). next_state d g (ok []))
          (fun_ext (λ (row' : Row).
            walk-at n it' row'
            ∙ ap (λ (later : Result (List A)). bind (f row') (λ x. bind later (λ xs. ok (x ∷ xs))))
                (next-walked n it' it'' row' rs e' h (omega arith))))
      ∙ sym (walked_at schema f r rs d refl)

  opened_at :
      (n : ℕ) (row : Row) (it : I) (d : Decoded)
      → c.valid it ≡ true
      → decode_row schema (c.key it) (c.val it) ≡ d
      → bind (of_option cannot_select (decode c schema row it)) (walk c f (suc n))
        ≡ first_state schema f d (next_state d (λ row'. walk c f (suc n) (at it row')) (ok []))
  unfolding decode walk
  opened_at n row it past v h = rw (v, h) refl
  opened_at n row it (decoded row') v h = rw (v, h) refl
  opened_at n row it broken v h = rw (v, h) refl
  opened_at n row it panicked v h = rw (v, h) refl

  opened_ended :
      (n : ℕ) (row : Row) (it : I)
      → c.valid it ≡ false
      → bind (of_option cannot_select (decode c schema row it)) (walk c f (suc n)) ≡ ok []
  unfolding decode walk
  opened_ended n row it v = rw v refl

  pub opened-scanned :
      (n : ℕ) (row : Row) (it : I) (rs : List Rec)
      → Emits c it rs
      → length rs < n
      → bind (of_option cannot_select (decode c schema row it)) (walk c f n) ≡ scanned schema f rs
  unfolding scanned
  opened-scanned zero row it rs h l = absurd (omega arith)
  opened-scanned (suc n) row it [] v l = opened_ended n row it v
  opened-scanned (suc n) row it (r ∷ rs) (v, cur, it', e, h) l =
      let d = decode_row schema r.key r.val in
      let same : decode_row schema (c.key it) (c.val it) ≡ d =
        ap (λ (x : Rec). decode_row schema x.key x.val) cur in
      opened_at n row it d v same
      ∙ ap (first_state schema f d) (
          ap (λ (g : Row → Result (List A)). next_state d g (ok []))
            (fun_ext (λ (row' : Row).
              walk-at n it row'
              ∙ ap
                  (λ (later : Result (List A)). bind (f row') (λ x. bind later (λ xs. ok (x ∷ xs))))
                  (next-walked n it it' row' rs e h (omega arith))))
          ∙ sym (walked_at schema f r rs d refl))
