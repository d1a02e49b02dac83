-- ===== src/Sql/Parser/Ladder/Match.antt =====
-- sql/expr.go (tryBinToken and the table of a level): how far the parser stands behind a try.
use db.Prelude.{
  ◌≤◌, ◌<◌, ◌≡◌, refl, true, List, [], ◌∷◌, Option, none, some, Bytes, arith, All, length,
  length-drop,
}
use db.Sql.Expr.{ExprOp}
use db.Sql.Parser.{skip_spaces, keyword, try_keyword, try_punctuation}
use db.Sql.Parser.Ladder.Leaf.{length-skip_spaces}
use db.Sql.Parser.Ladder.{
  keyword_hit, BinToken, try_bin_token, match_token, Level, or_level, and_level, not_level,
  cmp_level, add_level, mul_level, neg_level, atom_level, tokens,
}

pub punctuation_le : (pun p : Bytes) → length (try_punctuation pun p).1 ≤ length p
unfolding try_punctuation
punctuation_le pun p =
    ground (arith, length-skip_spaces p, length-drop (length pun) (skip_spaces p))

pub punctuation_lt :
    (pun p : Bytes)
    → 0 < length pun
    → (try_punctuation pun p).0 ≡ true
    → length (try_punctuation pun p).1 < length p
unfolding try_punctuation
punctuation_lt pun p n h =
    ground (arith, length-skip_spaces p, length-drop (length pun) (skip_spaces p))

pub keyword_lt : (kw p p' : Bytes) → 0 < length kw → keyword kw p ≡ some p' → length p' < length p
unfolding keyword
keyword_lt kw p p' n h =
    ground (arith, length-skip_spaces p, length-drop (length kw) (skip_spaces p))

pub try_keyword_lt :
    (kw p p' : Bytes) → 0 < length kw → try_keyword (kw ∷ []) p ≡ some p' → length p' < length p
unfolding try_keyword
try_keyword_lt kw p p' n h = ground (arith, keyword_lt kw p p' n)

hit_le :
    (p : Bytes) (o : Option Bytes)
    → ((p' : Bytes) → o ≡ some p' → length p' < length p)
    → length (keyword_hit p o).1 ≤ length p
hit_le p none h = omega arith
hit_le p (some p') h = omega (arith, h p' refl)

hit_lt :
    (p : Bytes) (o : Option Bytes)
    → ((p' : Bytes) → o ≡ some p' → length p' < length p)
    → (keyword_hit p o).0 ≡ true
    → length (keyword_hit p o).1 < length p
hit_lt p none h e = cc
hit_lt p (some p') h e = h p' refl

token_le : (t : BinToken) (p : Bytes) → 0 < length t.text → length (try_bin_token t p).1 ≤ length p
unfolding try_bin_token
token_le t p n = ground (
  arith,
  hit_le p (try_keyword (t.text ∷ []) p) (λ p' e. try_keyword_lt t.text p p' n e),
  punctuation_le t.text p,
)

token_lt :
    (t : BinToken) (p : Bytes)
    → 0 < length t.text
    → (try_bin_token t p).0 ≡ true
    → length (try_bin_token t p).1 < length p
unfolding try_bin_token
token_lt t p n h = ground (
  arith,
  hit_lt p (try_keyword (t.text ∷ []) p) (λ p' e. try_keyword_lt t.text p p' n e),
  punctuation_lt t.text p n,
)

pub match_le :
    (ts : List BinToken) (p : Bytes)
    → All (λ t. 0 < length t.text) ts
    → length (match_token ts p).1 ≤ length p
unfolding match_token
match_le [] p h = omega arith
match_le (t ∷ ts) p (n, h) = ground (arith, token_le t p n, match_le ts (try_bin_token t p).1 h)

pub match_lt :
    (ts : List BinToken) (p : Bytes) (op : ExprOp)
    → All (λ t. 0 < length t.text) ts
    → (match_token ts p).0 ≡ some op
    → length (match_token ts p).1 < length p
unfolding match_token
match_lt [] p op h e = cc
match_lt (t ∷ ts) p op (n, h) e =
    ground (arith, token_le t p n, token_lt t p n, match_lt ts (try_bin_token t p).1 op h)

pub tokens_lem : (l : Level) → All (λ t. 0 < length t.text) (tokens l)
tokens_lem or_level = omega arith
tokens_lem and_level = omega arith
tokens_lem cmp_level = omega arith
tokens_lem add_level = omega arith
tokens_lem mul_level = omega arith
tokens_lem not_level = tt
tokens_lem neg_level = tt
tokens_lem atom_level = tt
