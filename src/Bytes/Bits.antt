-- ===== src/Bytes/Bits.antt =====
-- Flipping the top bit of a word: `w ^ (1 << k)` at a word of k + 1 bits.
use Prim.Native.Nat.{bit_xor, digits, differ, bit_xor-bitwise}
use db.Prelude.{
  ℕ, zero, suc, ◌+◌, ◌-◌, ◌*◌, ◌/◌, ◌%◌, ◌^◌, ◌≤◌, ◌<◌, ◌≡◌, refl, arith, ltb, if◌then◌else◌,
}
use native.Mathlib.Nat.{pow-suc, le_refl}

abbrev xor_digits : ℕ → ℕ → ℕ → ℕ
xor_digits = digits (λ b. b) differ

xor_digits_fuel : (n m a b : ℕ) → a ≤ n → a ≤ m → xor_digits n a b ≡ xor_digits m a b
xor_digits_fuel zero zero a b p q = refl
xor_digits_fuel zero (suc m) zero b p q = refl
xor_digits_fuel zero (suc m) (suc a) b p q = absurd (omega arith)
xor_digits_fuel (suc n) zero zero b p q = refl
xor_digits_fuel (suc n) zero (suc a) b p q = absurd (omega arith)
xor_digits_fuel (suc n) (suc m) zero b p q = refl
xor_digits_fuel (suc n) (suc m) (suc a) b p q =
    rw (xor_digits_fuel n m (suc a / 2) (b / 2) (omega arith) (omega arith))

-- One equation for the lowest digit.
bit_xor_step : (a b : ℕ) → bit_xor a b ≡ bit_xor (a / 2) (b / 2) * 2 + differ (a % 2) (b % 2)
bit_xor_step zero b = simp bit_xor-bitwise (omega arith)
bit_xor_step (suc a) b =
    simp bit_xor-bitwise
      (omega (arith, xor_digits_fuel a (suc a / 2) (suc a / 2) (b / 2) (omega arith) (le_refl _)))

differ-zero : (x : ℕ) → differ x 0 ≡ x
differ-zero zero = refl
differ-zero (suc x) = refl

flip_low : (w : ℕ) → w < 2 → bit_xor w 1 ≡ (if ltb w 1 then w + 1 else w - 1)
flip_low zero h = refl
flip_low (suc zero) h = refl
flip_low (suc (suc w)) h = absurd (omega arith)

-- The top bit is added where it is clear, and taken away where it is set.
pub bit_xor_top :
    (k w : ℕ) → w < 2 * 2 ^ k → bit_xor w (2 ^ k) ≡ (if ltb w (2 ^ k) then w + 2 ^ k else w - 2 ^ k)
bit_xor_top zero w h = flip_low w h
bit_xor_top (suc k) w h =
    let p = 2 ^ k in
    let twice : 2 ^ suc k ≡ 2 * p = omega (arith, pow-suc 2 k) in
    let half : 2 * p / 2 ≡ p = omega arith in
    let even : 2 * p % 2 ≡ 0 = omega arith in
    rw
      (
        twice,
        bit_xor_step w (2 * p),
        half,
        even,
        differ-zero (w % 2),
        bit_xor_top k (w / 2) (omega arith),
      )
      (ground arith)
