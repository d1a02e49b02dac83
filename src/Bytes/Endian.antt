-- ===== src/Bytes/Endian.antt =====
-- encoding/binary: unsigned words of k bytes, little-endian and big-endian.
use db.Prelude.{
  ℕ, zero, suc, ◌+◌, ◌*◌, ◌/◌, ◌%◌, ◌^◌, ◌≤◌, ◌<◌, ◌≡◌, refl, sym, ap, ◌∙◌, [], ◌∷◌, arith, Bytes,
  IsByte, All, length, compare, lt, eq, gt,
}
use db.Bytes.Order.{cmp}
use native.Mathlib.Nat.{
  div-add-mod', mod-lt, pow-suc, mod-eq_of_lt, add-mul-mod_self_right, mul-le-mul_right,
}

-- LittleEndian.PutUint: the low k bytes of a word, lowest first.
unfoldable pub le_bytes : ℕ → ℕ → Bytes
le_bytes zero w = []
le_bytes (suc k) w = (w % 256) ∷ le_bytes k (w / 256)

-- LittleEndian.Uint
unfoldable pub from_le : Bytes → ℕ
from_le [] = 0
from_le (b ∷ bs) = b + 256 * from_le bs

-- BigEndian.AppendUint: the low k bytes of a word, highest first.
unfoldable pub be_bytes : ℕ → ℕ → Bytes
be_bytes zero w = []
be_bytes (suc k) w = (w / 256 ^ k % 256) ∷ be_bytes k w

-- BigEndian.Uint
unfoldable pub from_be : Bytes → ℕ
from_be [] = 0
from_be (b ∷ bs) = b * 256 ^ length bs + from_be bs

pub length-le_bytes : (k w : ℕ) → length (le_bytes k w) ≡ k
unfolding le_bytes
length-le_bytes zero w = refl
length-le_bytes (suc k) w = ap suc (length-le_bytes k (w / 256))

pub length-be_bytes : (k w : ℕ) → length (be_bytes k w) ≡ k
unfolding be_bytes
length-be_bytes zero w = refl
length-be_bytes (suc k) w = ap suc (length-be_bytes k w)

pub le_bytes-IsByte : (k w : ℕ) → All IsByte (le_bytes k w)
unfolding le_bytes
le_bytes-IsByte zero w = tt
le_bytes-IsByte (suc k) w = (omega arith, le_bytes-IsByte k (w / 256))

pow256 : (k : ℕ) → 256 ^ suc k ≡ 256 * 256 ^ k
pow256 k = omega (arith, pow-suc 256 k)

-- A word that fits k bytes reads back.
pub from_le-le_bytes : (k w : ℕ) → w < 256 ^ k → from_le (le_bytes k w) ≡ w
unfolding from_le le_bytes
from_le-le_bytes zero w h = omega arith
from_le-le_bytes (suc k) w h = omega (arith, from_le-le_bytes k (w / 256) (omega (arith, pow256 k)))

pow256_pos : (k : ℕ) → 0 < 256 ^ k
pow256_pos zero = omega arith
pow256_pos (suc k) = omega (arith, pow256 k, pow256_pos k)

-- The digit at p and the digits below it, in a number.
digit_split : (a p : ℕ) → 0 < p → a % (256 * p) ≡ a / p % 256 * p + a % p
digit_split a p h =
    let q = a / p in
    let x = q % 256 * p + a % p in
    let small : x < 256 * p = omega (arith, mod-lt a h, mul-le-mul_right p (le_255 q)) in
    let whole : x + q / 256 * (256 * p) ≡ a =
      omega (arith, div-add-mod' a p, ap (λ (t : ℕ). t * p) (div-add-mod' q 256)) in
    ap (λ (t : ℕ). t % (256 * p)) (sym whole)
    ∙ add-mul-mod_self_right x (q / 256) (256 * p)
    ∙ mod-eq_of_lt small
  where
    le_255 : (q : ℕ) → q % 256 ≤ 255
    le_255 q = omega arith

-- The low k bytes, as a number.
pub from_be-be_bytes : (k w : ℕ) → from_be (be_bytes k w) ≡ w % 256 ^ k
unfolding from_be be_bytes
from_be-be_bytes zero w = omega arith
from_be-be_bytes (suc k) w =
    rw (length-be_bytes, from_be-be_bytes k w, pow256 k)
      (sym (digit_split w (256 ^ k) (pow256_pos k)))

compare_digits :
    (p x y r s : ℕ)
    → r < p
    → s < p
    → compare (x * p + r) (y * p + s) ≡ elim (compare x y) [ lt ↦ lt | eq ↦ compare r s | gt ↦ gt ]
compare_digits p x y r s h g =
    let below = λ (u v : ℕ) (l : suc u ≤ v). mul-le-mul_right p l in
    ground (arith, below x y, below y x)

cmp_low : (k a b : ℕ) → cmp (be_bytes k a) (be_bytes k b) ≡ compare (a % 256 ^ k) (b % 256 ^ k)
unfolding be_bytes cmp
cmp_low zero a b = ground arith
cmp_low (suc k) a b =
    let p = 256 ^ k in
    rw (pow256 k, digit_split a p (pow256_pos k), digit_split b p (pow256_pos k))
      (ground (
        arith,
        cmp_low k a b,
        compare_digits p (a / p % 256) (b / p % 256) (a % p) (b % p) (mod-lt a (pow256_pos k))
            (mod-lt b (pow256_pos k)),
      ))

-- Big-endian words of one width compare as numbers.
pub cmp-be_bytes :
    (k a b : ℕ) → a < 256 ^ k → b < 256 ^ k → cmp (be_bytes k a) (be_bytes k b) ≡ compare a b
cmp-be_bytes k a b h g = rw (cmp_low k a b, mod-eq_of_lt h, mod-eq_of_lt g)
