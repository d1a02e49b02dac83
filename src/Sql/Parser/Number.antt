-- ===== src/Sql/Parser/Number.antt =====
-- sql/parse_value.go: digits with a sign are read as the integer that they write, or refused as a whole.
use db.Prelude.{
  ℕ, zero, suc, All-append, length-append, ◌+◌, ◌-◌, ◌*◌, ◌/◌, ◌%◌, ◌^◌, ◌<◌, ◌≡◌, refl, ap, ◌∙◌,
  Bool, true, false, [], ◌∷◌, ◌++◌, none, some, arith, Bytes, All, length,
}
use native.Mathlib.Nat.{pow-suc}
use db.Sql.Parser.{
  Parsed, value, failed, out_of_range, i64_cell, is_space, is_digit, span, decimal, signed,
  digits_at, parse_int, parse_value,
}
use db.Sql.Parser.Text.{skip_spaces-cons, parse_value-spaces}

-- The rest does not go on with a digit.
abbrev pub NoDigit : Bytes → Type 0
NoDigit [] = Unit
NoDigit (ch ∷ p) = is_digit ch ≡ false

-- The decimal digits of a number below 10 ^ k, k of them.
unfoldable pub digits : ℕ → ℕ → Bytes
digits zero n = []
digits (suc k) n = digits k (n / 10) ++ (b'0' + n % 10) ∷ []

pub data Sign : Type 0 where
  unsigned plus minus : Sign

abbrev pub sign_bytes : Sign → Bytes
sign_bytes unsigned = []
sign_bytes plus = b'+' ∷ []
sign_bytes minus = b'-' ∷ []

abbrev pub is_minus : Sign → Bool
is_minus minus = true
is_minus _ = false

span-digits :
    (ds rest : Bytes)
    → All (λ ch. is_digit ch ≡ true) ds
    → NoDigit rest
    → span is_digit (ds ++ rest) ≡ (ds, rest)
unfolding span
span-digits [] [] h n = refl
span-digits [] (ch ∷ rest) h n = ground (arith, n)
span-digits (d ∷ ds) rest (h, hs) n = ground (arith, h, span-digits ds rest hs n)

-- What the parser answers for a number of that sign.
abbrev pub number : Sign → ℕ → Bytes → Bytes → Parsed
number sign n start rest = elim (signed (is_minus sign) n) [
  | none ↦ failed out_of_range start
  | some x ↦ value (i64_cell x) rest
]

digits_at_lem :
    (start ds rest : Bytes) (sign : Sign)
    → All (λ ch. is_digit ch ≡ true) ds
    → NoDigit rest
    → 0 < length ds
    → digits_at start (is_minus sign) (ds ++ rest) ≡ number sign (decimal 0 ds) start rest
unfolding digits_at
digits_at_lem start ds rest sign h n l =
    let run = span-digits ds rest h n in
    ground (
      arith,
      ap (λ (r : Bytes × Bytes). r.0) run,
      ap (λ (r : Bytes × Bytes). r.1) run,
      ap (λ (r : Bytes × Bytes). length r.0) run,
    )

signed_at_lem :
    (sign : Sign) (d : ℕ) (p : Bytes)
    → is_digit d ≡ true
    → parse_value (sign_bytes sign ++ d ∷ p)
      ≡ digits_at (sign_bytes sign ++ d ∷ p) (is_minus sign) (d ∷ p)
unfolding parse_value parse_int is_digit is_space
signed_at_lem unsigned d p h = ground (arith, skip_spaces-cons d p (ground arith))
signed_at_lem plus d p h = ground (arith, skip_spaces-cons b'+' (d ∷ p) refl)
signed_at_lem minus d p h = ground (arith, skip_spaces-cons b'-' (d ∷ p) refl)

digits-All : (k n : ℕ) → All (λ ch. is_digit ch ≡ true) (digits k n)
unfolding digits is_digit
digits-All zero n = tt
digits-All (suc k) n =
    All-append (λ ch. is_digit ch ≡ true) (digits k (n / 10)) ((b'0' + n % 10) ∷ [])
      (digits-All k (n / 10)) (ground arith, tt)

decimal-append : (a : ℕ) (xs ys : Bytes) → decimal a (xs ++ ys) ≡ decimal (decimal a xs) ys
unfolding decimal
decimal-append a [] ys = refl
decimal-append a (x ∷ xs) ys = decimal-append (a * 10 + (x - b'0')) xs ys

decimal-digits : (k n : ℕ) → n < 10 ^ k → decimal 0 (digits k n) ≡ n
unfolding decimal digits
decimal-digits zero n h = omega arith
decimal-digits (suc k) n h =
    decimal-append 0 (digits k (n / 10)) ((b'0' + n % 10) ∷ [])
    ∙ rw (decimal-digits k (n / 10) (omega (arith, pow-suc 10 k))) (omega arith)

digits-length : (k n : ℕ) → length (digits k n) ≡ k
unfolding digits
digits-length zero n = refl
digits-length (suc k) n =
    omega
      (arith, length-append (digits k (n / 10)) ((b'0' + n % 10) ∷ []), digits-length k (n / 10))

unsigned_number :
    (sign : Sign) (ds rest : Bytes)
    → All (λ ch. is_digit ch ≡ true) ds
    → NoDigit rest
    → 0 < length ds
    → parse_value (sign_bytes sign ++ (ds ++ rest))
      ≡ number sign (decimal 0 ds) (sign_bytes sign ++ (ds ++ rest)) rest
unsigned_number sign [] rest h n l = absurd (omega arith)
unsigned_number sign (d ∷ ds) rest h n l =
    signed_at_lem sign d (ds ++ rest) h.0
    ∙ digits_at_lem (sign_bytes sign ++ d ∷ (ds ++ rest)) (d ∷ ds) rest sign h n l

-- After any spaces and at most one sign, the k > 0 decimal digits of n < 10 ^ k, with zeros in front where n is shorter, and then no further digit,
-- parse as the integer n or -n, if that is an int64; the parser stands behind
-- the digits. If it is not, the literal is refused as a whole: the parser stands before the sign.
pub parse_value-digits :
    (spaces : Bytes) (sign : Sign) (k n : ℕ) (rest : Bytes)
    → All (λ ch. is_space ch ≡ true) spaces
    → 0 < k
    → n < 10 ^ k
    → NoDigit rest
    → parse_value (spaces ++ (sign_bytes sign ++ (digits k n ++ rest)))
      ≡ number sign n (sign_bytes sign ++ (digits k n ++ rest)) rest
parse_value-digits spaces sign k n rest a p h stop =
    parse_value-spaces spaces (sign_bytes sign ++ (digits k n ++ rest)) a
    ∙ unsigned_number sign (digits k n) rest (digits-All k n) stop
        (omega (arith, digits-length k n))
    ∙ ap (λ (t : ℕ). number sign t (sign_bytes sign ++ (digits k n ++ rest)) rest)
        (decimal-digits k n h)
