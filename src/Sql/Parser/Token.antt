-- ===== src/Sql/Parser/Token.antt =====
-- sql/parser.go, sql/parse_value.go: what the primitives accept, and that a literal that does not
-- parse consumes nothing but the spaces before it.
use db.Prelude.{
  ℕ, ◌≤◌, ◌≡◌, refl, ◌∙◌, Bool, true, false, [], ◌∷◌, ◌++◌, none, some, arith, Bytes, All, length,
  take, drop, if◌then◌else◌, take-append, drop-append, length-append,
}
use db.Sql.Parser.{
  ValueError, failed, is_space, separated, skip_spaces, equal_fold, keyword, digits_at, signed_at,
  parse_int, string_loop, quoted_at, parse_string, value_at, parse_value,
}
use db.Sql.Parser.Text.{skip_spaces-append, skip_spaces-cons}

-- A token starts with a byte that is no space.
abbrev pub Starts : Bytes → Type 0
Starts [] = ⊥
Starts (ch ∷ p) = is_space ch ≡ false

skip_spaces-Starts : (w rest : Bytes) → Starts w → skip_spaces (w ++ rest) ≡ w ++ rest
skip_spaces-Starts [] rest h = absurd h
skip_spaces-Starts (ch ∷ w) rest h = skip_spaces-cons ch (w ++ rest) h

length-equal_fold : (a b : Bytes) → equal_fold a b ≡ true → length a ≡ length b
unfolding equal_fold
length-equal_fold [] [] h = refl
length-equal_fold [] (b ∷ t) h = cc
length-equal_fold (a ∷ s) [] h = cc
length-equal_fold (a ∷ s) (b ∷ t) h = ground (arith, length-equal_fold s t)

keyword_at :
    (kw s w rest : Bytes) (p : Bytes)
    → skip_spaces p ≡ s
    → take (length kw) s ≡ w
    → drop (length kw) s ≡ rest
    → length kw ≤ length s
    → equal_fold w kw ≡ true
    → keyword kw p ≡ (if separated rest then some rest else none)
unfolding keyword
keyword_at kw s w rest p e t d l f = rw (e, d, t) (ground (arith, f))

-- A keyword in any case, after any spaces, is matched where a separator or the end follows, and not
-- matched where the name goes on.
pub keyword-equal_fold :
    (spaces w kw rest : Bytes)
    → All (λ ch. is_space ch ≡ true) spaces
    → Starts w
    → equal_fold w kw ≡ true
    → keyword kw (spaces ++ (w ++ rest)) ≡ (if separated rest then some rest else none)
keyword-equal_fold spaces w kw rest a h f =
    let size = length-equal_fold w kw f in
    keyword_at kw (w ++ rest) w rest (spaces ++ (w ++ rest))
      (skip_spaces-append spaces (w ++ rest) a ∙ skip_spaces-Starts w rest h)
      (rw (← size) (take-append w rest)) (rw (← size) (drop-append w rest))
      (omega (arith, size, length-append w rest)) f

string_loop-start :
    (start : Bytes) (quote : ℕ) (sb p q : Bytes) (e : ValueError)
    → string_loop start quote sb p ≡ failed e q
    → q ≡ start
unfolding string_loop
string_loop-start start quote sb [] q e h = cc
string_loop-start start quote sb (ch ∷ []) q e h = ground arith
string_loop-start start quote sb (ch ∷ esc ∷ p) q e h = ground (
  arith,
  string_loop-start start quote (sb ++ esc ∷ []) p q e,
  string_loop-start start quote (sb ++ ch ∷ []) (esc ∷ p) q e,
)

digits_at-start :
    (start p q : Bytes) (negative : Bool) (e : ValueError)
    → digits_at start negative p ≡ failed e q
    → q ≡ start
unfolding digits_at
digits_at-start start p q negative e h = ground arith

pub skip_spaces_twice : (p : Bytes) → skip_spaces (skip_spaces p) ≡ skip_spaces p
unfolding skip_spaces
skip_spaces_twice [] = refl
skip_spaces_twice (ch ∷ p) = ground (arith, skip_spaces_twice p)

quoted_at-start : (s q : Bytes) (e : ValueError) → quoted_at s ≡ failed e q → q ≡ s
quoted_at-start [] q e h = cc
quoted_at-start (ch ∷ p) q e h = ground (arith, string_loop-start (ch ∷ p) ch [] p q e)

signed_at-start : (s q : Bytes) (e : ValueError) → signed_at s ≡ failed e q → q ≡ s
signed_at-start [] q e h = digits_at-start [] [] q false e h
signed_at-start (ch ∷ p) q e h = ground (
  arith,
  digits_at-start (ch ∷ p) p q false e,
  digits_at-start (ch ∷ p) p q true e,
  digits_at-start (ch ∷ p) (ch ∷ p) q false e,
)

value_at-start :
    (s q : Bytes) (e : ValueError) → skip_spaces s ≡ s → value_at s ≡ failed e q → q ≡ s
unfolding parse_string parse_int
value_at-start [] q e w h = cc
value_at-start (ch ∷ p) q e w h =
    ground (arith, w, quoted_at-start (ch ∷ p) q e, signed_at-start (ch ∷ p) q e)

-- A literal that is refused, for whatever reason, leaves the parser behind the spaces and consumes nothing else.
pub parse_value-failed :
    (p q : Bytes) (e : ValueError) → parse_value p ≡ failed e q → q ≡ skip_spaces p
unfolding parse_value
parse_value-failed p q e h = value_at-start (skip_spaces p) q e (skip_spaces_twice p) h
