-- ===== src/Sql/Parser/Ladder/Leaf.antt =====
-- sql/expr.go: a column or a literal consumes a byte at least.
use db.Prelude.{
  ℕ, ◌+◌, ◌≤◌, ◌<◌, ◌≡◌, refl, Bool, true, false, [], ◌∷◌, ◌++◌, Bytes, arith, length, Bool-cases,
  inl, inr,
}
use db.Table.Cell.{Cell}
use db.Sql.Parser.{
  Parsed, value, failed, is_name_start, is_name_continue, is_digit, skip_spaces, span, name_at,
  try_name, digits_at, signed_at, parse_int, string_loop, quoted_at, parse_string, value_at,
  parse_value,
}
use db.Sql.Parser.Token.{skip_spaces_twice}
use db.Sql.Parser.Ladder.{Built, tree, refused, stuck, literal, named, leaf}

-- A result, with fewer bytes left than n.
abbrev pub Ends : ℕ → Built → Type 0
Ends n (tree e p) = length p < n
Ends n refused = Unit
Ends n stuck = ⊥

pub length-skip_spaces : (p : Bytes) → length (skip_spaces p) ≤ length p
unfolding skip_spaces
length-skip_spaces [] = omega arith
length-skip_spaces (ch ∷ p) = ground (arith, length-skip_spaces p)

pub length-span :
    (test : ℕ → Bool) (p : Bytes) → length (span test p).0 + length (span test p).1 ≡ length p
unfolding span
length-span test [] = omega arith
length-span test (ch ∷ p) = ground (arith, length-span test p)

digits_lt :
    (start p q : Bytes) (negative : Bool) (c : Cell)
    → digits_at start negative p ≡ value c q
    → length q < length p
unfolding digits_at
digits_lt start p q negative c h = ground (arith, length-span is_digit p)

string_lt :
    (start : Bytes) (quote : ℕ) (sb p q : Bytes) (c : Cell)
    → string_loop start quote sb p ≡ value c q
    → length q < length p
unfolding string_loop
string_lt start quote sb [] q c h = cc
string_lt start quote sb (ch ∷ []) q c h = ground arith
string_lt start quote sb (ch ∷ esc ∷ p) q c h = ground (
  arith,
  string_lt start quote (sb ++ esc ∷ []) p q c,
  string_lt start quote (sb ++ ch ∷ []) (esc ∷ p) q c,
)

quoted_lt : (s q : Bytes) (c : Cell) → quoted_at s ≡ value c q → length q < length s
quoted_lt [] q c h = cc
quoted_lt (ch ∷ p) q c h = ground (arith, string_lt (ch ∷ p) ch [] p q c)

signed_lt : (s q : Bytes) (c : Cell) → signed_at s ≡ value c q → length q < length s
signed_lt [] q c h = digits_lt [] [] q false c h
signed_lt (ch ∷ p) q c h = ground (
  arith,
  digits_lt (ch ∷ p) p q false c,
  digits_lt (ch ∷ p) p q true c,
  digits_lt (ch ∷ p) (ch ∷ p) q false c,
)

value_at_lt :
    (s q : Bytes) (c : Cell) → skip_spaces s ≡ s → value_at s ≡ value c q → length q < length s
unfolding parse_string parse_int
value_at_lt [] q c w h = cc
value_at_lt (ch ∷ p) q c w h = ground (arith, w, quoted_lt (ch ∷ p) q c, signed_lt (ch ∷ p) q c)

pub value_lt : (p q : Bytes) (c : Cell) → parse_value p ≡ value c q → length q < length p
unfolding parse_value
value_lt p q c h =
    omega (arith, value_at_lt (skip_spaces p) q c (skip_spaces_twice p) h, length-skip_spaces p)

literal-Ends : (p : Bytes) (r : Parsed) → parse_value p ≡ r → Ends (length p) (literal r)
literal-Ends p (value c q) e = value_lt p q c e
literal-Ends p (failed e' q) e = tt

named-Ends : (s : Bytes) → Ends (length s) (named (name_at s))
named-Ends [] = literal-Ends [] (parse_value []) refl
named-Ends (ch ∷ p) = elim (Bool-cases (is_name_start ch)) [
  | inl t ↦ rw t (omega (arith, length-span is_name_continue p))
  | inr t ↦ rw t (literal-Ends (ch ∷ p) (parse_value (ch ∷ p)) refl)
]

pub leaf-Ends : (p : Bytes) → Ends (length p) (leaf p)
unfolding leaf try_name
leaf-Ends p = weaken (named (name_at (skip_spaces p))) (named-Ends (skip_spaces p))
  where
    weaken : (b : Built) → Ends (length (skip_spaces p)) b → Ends (length p) b
    weaken (tree e q) h = omega (arith, length-skip_spaces p)
    weaken refused h = tt
    weaken stuck h = h
