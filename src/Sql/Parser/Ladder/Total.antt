-- ===== src/Sql/Parser/Ladder/Total.antt =====
-- sql/expr.go (parseExpr): the recursive descent, level by level.
use db.Prelude.{
  ℕ, zero, suc, ◌+◌, ◌*◌, ◌≤◌, ◌<◌, ◌≡◌, refl, Bool, true, false, [], ◌∷◌, Option, none, some,
  Bytes, arith, length,
}
use db.Bytes.Order.{cmp}
use db.Sql.Expr.{ExprOp, op_not, op_neg, Expr, one_more, no_more, bin_op}
use db.Sql.Parser.{is_space, skip_spaces, try_keyword, try_punctuation}
use db.Sql.Parser.Ladder.Leaf.{leaf-Ends, Ends, length-skip_spaces}
use db.Sql.Parser.Ladder.{
  opens, match_token, Level, or_level, and_level, not_level, cmp_level, add_level, mul_level,
  neg_level, atom_level, tokens, Built, tree, refused, stuck, Listed, listed, no_list, list_stuck,
  unary, listed_more, closed, leaf, parse, chain, more, items, parse_expr,
}
use db.Sql.Parser.Ladder.Match.{
  punctuation_le, punctuation_lt, match_le, match_lt, tokens_lem, try_keyword_lt,
}

abbrev ListEnds : ℕ → Listed → Type 0
ListEnds n (listed es p) = length p < n
ListEnds n no_list = Unit
ListEnds n list_stuck = ⊥

-- What is left falls at each step of a chain, a loop and a list.
Ends-le : (m n : ℕ) (b : Built) → m ≤ n → Ends m b → Ends n b
Ends-le m n (tree e p) l h = omega arith
Ends-le m n refused l h = tt
Ends-le m n stuck l h = h

bind-Ends :
    (m n : ℕ) (b : Built) (g : Expr → Bytes → Built)
    → Ends m b
    → ((e : Expr) (p : Bytes) → length p < m → Ends n (g e p))
    → Ends n (elim b [ tree e p ↦ g e p | refused ↦ refused | stuck ↦ stuck ])
bind-Ends m n (tree e p) g h k = k e p h
bind-Ends m n refused g h k = tt
bind-Ends m n stuck g h k = h

unary-Ends : (n : ℕ) (op : ExprOp) (b : Built) → Ends n b → Ends n (unary op b)
unary-Ends n op (tree e p) h = h
unary-Ends n op refused h = tt
unary-Ends n op stuck h = h

bool-Ends :
    (n : ℕ) (b : Bool) (x y : Built)
    → (b ≡ true → Ends n x)
    → (b ≡ false → Ends n y)
    → Ends n (elim b [ true ↦ x | false ↦ y ])
bool-Ends n true x y h k = h refl
bool-Ends n false x y h k = k refl

option-Ends {ℓ} :
    {A : Type ℓ} (n : ℕ) (o : Option A) (g : A → Built) (y : Built)
    → ((a : A) → o ≡ some a → Ends n (g a))
    → (o ≡ none → Ends n y)
    → Ends n (elim o [ some a ↦ g a | none ↦ y ])
option-Ends n none g y h k = k refl
option-Ends n (some a) g y h k = h a refl

closed-Ends : (m n : ℕ) (r : Listed) → m ≤ n → ListEnds m r → Ends n (closed r)
closed-Ends m n (listed es p) l h = bool (try_punctuation (b')' ∷ []) p).0 refl
  where
    bool : (b : Bool) → (try_punctuation (b')' ∷ []) p).0 ≡ b → Ends n (closed (listed es p))
    bool true e = rw e (omega (arith, punctuation_le (b')' ∷ []) p))
    bool false e = rw e tt
closed-Ends m n no_list l h = tt
closed-Ends m n list_stuck l h = h

listed_more-ListEnds :
    (m n : ℕ) (e : Expr) (r : Listed) → m ≤ n → ListEnds m r → ListEnds n (listed_more e r)
listed_more-ListEnds m n e (listed es p) l h = omega arith
listed_more-ListEnds m n e no_list l h = tt
listed_more-ListEnds m n e list_stuck l h = h

list_bind-ListEnds :
    (m n : ℕ) (b : Built) (g : Expr → Bytes → Listed)
    → Ends m b
    → ((e : Expr) (p : Bytes) → length p < m → ListEnds n (g e p))
    → ListEnds n (elim b [ tree e p ↦ g e p | refused ↦ no_list | stuck ↦ list_stuck ])
list_bind-ListEnds m n (tree e p) g h k = k e p h
list_bind-ListEnds m n refused g h k = tt
list_bind-ListEnds m n stuck g h k = h

bool-ListEnds :
    (n : ℕ) (b : Bool) (x y : Listed)
    → (b ≡ true → ListEnds n x)
    → (b ≡ false → ListEnds n y)
    → ListEnds n (elim b [ true ↦ x | false ↦ y ])
bool-ListEnds n true x y h k = h refl
bool-ListEnds n false x y h k = k refl

opens_hit : (s : Bytes) → opens s ≡ true → (try_punctuation (b'(' ∷ []) s).0 ≡ true
unfolding try_punctuation skip_spaces is_space cmp
opens_hit [] e = cc
opens_hit (ch ∷ p) e = let same : ch ≡ 40 = ground arith in rw same (ground arith)

abbrev need : Level → ℕ
need atom_level = 1
need neg_level = 2
need mul_level = 4
need add_level = 6
need cmp_level = 8
need not_level = 9
need and_level = 11
need or_level = 13

mutual
  unfolding parse chain more items

  parse-Ends :
      (f : ℕ) (l : Level) (p : Bytes) → 16 * length p + need l ≤ f → Ends (length p) (parse f l p)
  parse-Ends zero or_level p h = absurd (omega arith)
  parse-Ends zero and_level p h = absurd (omega arith)
  parse-Ends zero not_level p h = absurd (omega arith)
  parse-Ends zero cmp_level p h = absurd (omega arith)
  parse-Ends zero add_level p h = absurd (omega arith)
  parse-Ends zero mul_level p h = absurd (omega arith)
  parse-Ends zero neg_level p h = absurd (omega arith)
  parse-Ends zero atom_level p h = absurd (omega arith)
  parse-Ends (suc f) or_level p h = chain-Ends f or_level and_level p (omega arith) (omega arith)
  parse-Ends (suc f) and_level p h = chain-Ends f and_level not_level p (omega arith) (omega arith)
  parse-Ends (suc f) not_level p h =
      option-Ends (length p) (try_keyword ((b'N' ∷ b'O' ∷ b'T' ∷ []) ∷ []) p)
        (λ p'. unary op_not (parse f not_level p')) (parse f cmp_level p)
        (λ p' e.
          let fewer = try_keyword_lt (b'N' ∷ b'O' ∷ b'T' ∷ []) p p' (omega arith) e in
          unary-Ends (length p) op_not (parse f not_level p') (
            Ends-le (length p') (length p) (parse f not_level p') (omega arith)
              (parse-Ends f not_level p' (omega arith))))
        (λ e. parse-Ends f cmp_level p (omega arith))
  parse-Ends (suc f) cmp_level p h = chain-Ends f cmp_level add_level p (omega arith) (omega arith)
  parse-Ends (suc f) add_level p h = chain-Ends f add_level mul_level p (omega arith) (omega arith)
  parse-Ends (suc f) mul_level p h = chain-Ends f mul_level neg_level p (omega arith) (omega arith)
  parse-Ends (suc f) neg_level p h =
      let minus = try_punctuation (b'-' ∷ []) p in
      bool-Ends (length p) minus.0 (unary op_neg (parse f neg_level minus.1))
        (parse f atom_level minus.1)
        (λ e.
          let fewer = punctuation_lt (b'-' ∷ []) p (omega arith) e in
          unary-Ends (length p) op_neg (parse f neg_level minus.1) (
            Ends-le (length minus.1) (length p) (parse f neg_level minus.1) (omega arith)
              (parse-Ends f neg_level minus.1 (omega arith))))
        (λ e.
          let fewer = punctuation_le (b'-' ∷ []) p in
          Ends-le (length minus.1) (length p) (parse f atom_level minus.1) fewer
            (parse-Ends f atom_level minus.1 (omega arith)))
  parse-Ends (suc f) atom_level p h =
      let s = skip_spaces p in
      let q = (try_punctuation (b'(' ∷ []) s).1 in
      let shorter = length-skip_spaces p in
      bool-Ends (length p) (opens s) (closed (items f q)) (leaf s)
        (λ e.
          let fewer = punctuation_lt (b'(' ∷ []) s (omega arith) (opens_hit s e) in
          closed-Ends (length q) (length p) (items f q) (omega arith)
            (items-Ends f q (omega arith)))
        (λ e. Ends-le (length s) (length p) (leaf s) shorter (leaf-Ends s))

  chain-Ends :
      (f : ℕ) (l inner : Level) (p : Bytes)
      → 16 * length p + need inner + 1 ≤ f
      → need inner ≤ 11
      → Ends (length p) (chain f l inner p)
  chain-Ends zero l inner p h n = absurd (omega arith)
  chain-Ends (suc f) l inner p h n =
      bind-Ends (length p) (length p) (parse f inner p) (λ left p'. more f l inner left p')
        (parse-Ends f inner p (omega arith))
        (λ left p' fewer.
          Ends-le (suc (length p')) (length p) (more f l inner left p') (omega arith)
            (more-Ends f l inner left p' (omega arith) n))

  more-Ends :
      (f : ℕ) (l inner : Level) (left : Expr) (p : Bytes)
      → 16 * length p < f
      → need inner ≤ 11
      → Ends (suc (length p)) (more f l inner left p)
  more-Ends zero l inner left p h n = absurd (omega arith)
  more-Ends (suc f) l inner left p h n =
      let hit = match_token (tokens l) p in
      option-Ends (suc (length p)) hit.0
        (λ op. elim (parse f inner hit.1) [
          | tree right p' ↦ more f l inner (bin_op op left right) p'
          | refused ↦ refused
          | stuck ↦ stuck
        ])
        (tree left hit.1)
        (λ op e.
          let fewer = match_lt (tokens l) p op (tokens_lem l) e in
          bind-Ends (length hit.1) (suc (length p)) (parse f inner hit.1)
            (λ right p'. more f l inner (bin_op op left right) p')
            (parse-Ends f inner hit.1 (omega arith))
            (λ right p' less.
              Ends-le (suc (length p')) (suc (length p)) (more f l inner (bin_op op left right) p')
                (omega arith) (more-Ends f l inner (bin_op op left right) p' (omega arith) n)))
        (λ e. omega (arith, match_le (tokens l) p (tokens_lem l)))

  items-Ends : (f : ℕ) (p : Bytes) → 16 * length p + 14 ≤ f → ListEnds (length p) (items f p)
  items-Ends zero p h = absurd (omega arith)
  items-Ends (suc f) p h =
      list_bind-ListEnds (length p) (length p) (parse f or_level p)
        (λ e p'.
          let comma = try_punctuation (b',' ∷ []) p' in
          elim comma.0 [
            | true ↦ listed_more e (items f comma.1)
            | false ↦ listed (one_more e no_more) comma.1
          ])
        (parse-Ends f or_level p (omega arith))
        (λ e p' fewer.
          let comma = try_punctuation (b',' ∷ []) p' in
          let shorter = punctuation_le (b',' ∷ []) p' in
          bool-ListEnds (length p) comma.0 (listed_more e (items f comma.1))
            (listed (one_more e no_more) comma.1)
            (λ c.
              listed_more-ListEnds (length comma.1) (length p) e (items f comma.1) (omega arith)
                (items-Ends f comma.1 (omega arith)))
            (λ c. omega arith))

-- With fuel for sixteen calls for each byte and thirteen more, parsing an expression ends, whatever the text: it gives an error,
-- or a tree with fewer bytes left than there were.
pub parse_expr-Ends :
    (fuel : ℕ) (p : Bytes) → 16 * length p + 13 ≤ fuel → Ends (length p) (parse_expr fuel p)
unfolding parse_expr
parse_expr-Ends fuel p h = parse-Ends fuel or_level p h
