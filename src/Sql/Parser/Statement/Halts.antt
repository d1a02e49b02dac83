-- ===== src/Sql/Parser/Statement/Halts.antt =====
-- sql/parse_stmt.go: every statement parser ends, loop by loop and statement by statement.
use db.Prelude.{
  ℕ, zero, suc, ◌+◌, ◌*◌, ◌≤◌, ◌<◌, ◌≡◌, refl, Bool, true, false, List, [], ◌∷◌, Option, none, some,
  Bytes, arith, length, All,
}
use db.Sql.Expr.{Expr}
use db.Sql.Parser.{
  Parsed, value, failed, try_name, try_keyword, try_punctuation, at_end, parse_value, skip_spaces,
}
use db.Sql.Parser.Ladder.{Built, tree, parse_expr}
use db.Sql.Parser.Ladder
use db.Sql.Parser.Ladder.Leaf.{Ends}
use db.Sql.Parser
use db.Sql.Parser.Ladder.Match.{punctuation_le, punctuation_lt, keyword_lt}
use db.Sql.Parser.Ladder.Total.{parse_expr-Ends}
use db.Sql.Parser.Statement.{
  StmtError, Result, done, refused, stuck, Parser, bind, pure, ◌>>=◌, punctuation, expression,
  of_built, comma_list, column_comma, expect_comma,
}

-- No fuel has run out, and at most n bytes are left behind a result.
abbrev pub Halts {ℓ} : {A : Type ℓ} → ℕ → Result A → Type 0
Halts n (done a p) = length p ≤ n
Halts n (refused e) = Unit
Halts n stuck = ⊥

module _ {ℓ} {A : Type ℓ} where
  pub Halts-le : (m n : ℕ) (r : Result A) → m ≤ n → Halts m r → Halts n r
  Halts-le m n (done a p) l h = omega arith
  Halts-le m n (refused e) l h = tt
  Halts-le m n stuck l h = h

  pub bind-Halts {κ} :
      {B : Type κ} (m n : ℕ) (r : Result A) (f : A → Bytes → Result B)
      → Halts m r
      → ((a : A) (p : Bytes) → length p ≤ m → Halts n (f a p))
      → Halts n (bind r f)
  bind-Halts m n (done a p) f h k = k a p h
  bind-Halts m n (refused e) f h k = tt
  bind-Halts m n stuck f h k = h

  bool-Halts :
      (n : ℕ) (b : Bool) (x y : Result A)
      → (b ≡ true → Halts n x)
      → Halts n y
      → Halts n (elim b [ true ↦ x | false ↦ y ])
  bool-Halts n true x y h k = h refl
  bool-Halts n false x y h k = k

rest_le :
    (kws : List Bytes) (p q : Bytes) (o : Option Bytes)
    → ((p' : Bytes) → o ≡ some p' → length p' ≤ length p)
    → ((p' : Bytes) → try_keyword kws p' ≡ some q → length q ≤ length p')
    → (elim o [ none ↦ none | some p' ↦ try_keyword kws p' ]) ≡ some q
    → length q ≤ length p
rest_le kws p q none h k e = cc
rest_le kws p q (some p') h k e = omega (arith, h p' refl, k p' e)

pub try_keyword_le :
    (kws : List Bytes) (p q : Bytes)
    → All (λ kw. 0 < length kw) kws
    → try_keyword kws p ≡ some q
    → length q ≤ length p
unfolding try_keyword
try_keyword_le [] p q h e = ground arith
try_keyword_le (kw ∷ kws) p q (n, h) e =
    rest_le kws p q (Parser.keyword kw p) (λ p' s. omega (arith, keyword_lt kw p p' n s))
      (λ p' s. try_keyword_le kws p' q h s) e

-- On every text of at most n bytes the parser ends, behind where it started.
pub record Ending {ℓ} {A : Type ℓ} (n : ℕ) (m : Parser A) : Type ℓ where
  pub halts : (p : Bytes) → length p ≤ n → Halts (length p) (m p)

module _ {ℓ} {A : Type ℓ} (n : ℕ) where
  pub pure-Ending : (a : A) → Ending n (pure a)
  pure-Ending a = record { halts = λ p l. omega arith }

  pub bind-Ending {κ} :
      {B : Type κ} {m : Parser A} {f : A → Parser B}
      → Ending n m
      → ((a : A) → Ending n (f a))
      → Ending n (m >>= f)
  bind-Ending {m} {f} h k = record {
    halts = λ p l.
        bind-Halts (length p) (length p) (m p) f (h.halts p l)
          (λ a q s. Halts-le (length q) (length p) (f a q) s ((k a).halts q (omega arith)));
  }

  comma_list_loop :
      (item : A → Parser A)
      → ((a : A) → Ending n (item a))
      → (fuel : ℕ) (acc : A) (p : Bytes) → length p < fuel
      → length p ≤ n
      → Halts (length p) (comma_list item fuel acc p)
  unfolding comma_list
  comma_list_loop item h zero acc p l k = absurd (omega arith)
  comma_list_loop item h (suc fuel) acc p l k =
      bind-Halts (length p) (length p) (item acc p)
        (λ acc' p'.
          let comma = try_punctuation (b',' ∷ []) p' in
          elim comma.0 [ true ↦ comma_list item fuel acc' comma.1 | false ↦ done acc' comma.1 ])
        ((h acc).halts p k)
        (λ acc' p' s.
          let comma = try_punctuation (b',' ∷ []) p' in
          let shorter = punctuation_le (b',' ∷ []) p' in
          bool-Halts (length p) comma.0 (comma_list item fuel acc' comma.1) (done acc' comma.1)
            (λ e.
              let fewer = punctuation_lt (b',' ∷ []) p' (omega arith) e in
              Halts-le (length comma.1) (length p) (comma_list item fuel acc' comma.1) (omega arith)
                (comma_list_loop item h fuel acc' comma.1 (omega arith) (omega arith)))
            (omega arith))

  pub comma_list-Ending :
      (item : A → Parser A) (fuel : ℕ) (acc : A)
      → n < fuel
      → ((a : A) → Ending n (item a))
      → Ending n (comma_list item fuel acc)
  comma_list-Ending item fuel acc enough h = record {
    halts = λ p l. comma_list_loop item h fuel acc p (omega arith) l;
  }

pub punctuation-Ending : (n : ℕ) (pun : Bytes) (e : StmtError) → Ending n (punctuation pun e)
unfolding punctuation
punctuation-Ending n pun e = record { halts = λ p l. hit p (try_punctuation pun p).0 refl }
  where
    hit :
        (p : Bytes) (b : Bool)
        → (try_punctuation pun p).0 ≡ b
        → Halts (length p) (punctuation pun e p)
    hit p true s = rw s (punctuation_le pun p)
    hit p false s = rw s tt

-- An expression takes a byte at least.
pub bind-expression {ℓ} :
    {A : Type ℓ} (fuel n : ℕ) (p : Bytes) (f : Expr → Bytes → Result A)
    → 16 * length p + 13 ≤ fuel
    → ((e : Expr) (q : Bytes) → length q < length p → Halts n (f e q))
    → Halts n (bind (expression fuel p) f)
unfolding expression
bind-expression fuel n p f enough k = built (parse_expr fuel p) (parse_expr-Ends fuel p enough)
  where
    built : (b : Built) → Ends (length p) b → Halts n (bind (of_built b) f)
    built (tree e q) h = k e q h
    built Ladder.refused h = tt
    built Ladder.stuck h = h

-- A test of keywords, by what it leaves.
pub keyword-Halts {ℓ} :
    {A : Type ℓ} (kws : List Bytes) (n : ℕ) (p : Bytes) (g : Bytes → Result A) (y : Result A)
    → All (λ kw. 0 < length kw) kws
    → ((q : Bytes) → length q ≤ length p → Halts n (g q))
    → Halts n y
    → Halts n (elim (try_keyword kws p) [ some q ↦ g q | none ↦ y ])
keyword-Halts kws n p g y k h j = option (try_keyword kws p) refl
  where
    option :
        (o : Option Bytes) → try_keyword kws p ≡ o → Halts n (elim o [ some q ↦ g q | none ↦ y ])
    option none e = j
    option (some q) e = h q (try_keyword_le kws p q k e)

pub expression-Ending : (n fuel : ℕ) → 16 * n + 13 ≤ fuel → Ending n (expression fuel)
unfolding expression
expression-Ending n fuel enough = record {
  halts = λ p l. built p (parse_expr fuel p) (parse_expr-Ends fuel p (omega arith));
}
  where
    built : (p : Bytes) (b : Built) → Ends (length p) b → Halts (length p) (of_built b)
    built p (tree e q) h = omega arith
    built p Ladder.refused h = tt
    built p Ladder.stuck h = h

pub column_comma-Ending : (n : ℕ) (cols : List Expr) → Ending n (column_comma cols)
unfolding column_comma
column_comma-Ending n [] = record { halts = λ p l. omega arith }
column_comma-Ending n (c ∷ cols) = record {
  halts = (punctuation-Ending n (b',' ∷ []) expect_comma).halts;
}
