-- ===== src/Prelude/Int/Same.antt =====
-- Integers that are the same to 64 bits: sums, differences and products do not tell them apart.
use Prim.Native.Nat.{ℕ, ◌+◌, ◌*◌, ◌/◌, ◌%◌, ◌^◌, ◌<◌}
use mathlib.Core.Path.{◌≡◌, refl, sym, ap, ◌∙◌}
use native.Mathlib.Omega.{arith}
use native.Mathlib.Nat.{mod-add-div, add-mul-mod_self_left, mul_assoc, mul_comm, add-mul, add_comm}
use db.Prelude.Int.{
  ℤ, pos, negsuc, pos_part, neg_part, sub_ℕ, ◌+ℤ◌, ◌-ℤ◌, ◌*ℤ◌, to_u64, of_u64, wrap64, to_u64-lt,
}

to_u64-sub_ℕ : (p n : ℕ) → (to_u64 (sub_ℕ p n) + n) % 2 ^ 64 ≡ p % 2 ^ 64
unfolding to_u64
to_u64-sub_ℕ p n = ground arith

parts : (x : ℤ) → (to_u64 x + neg_part x) % 2 ^ 64 ≡ pos_part x % 2 ^ 64
unfolding to_u64
parts (pos n) = omega arith
parts (negsuc n) = omega arith

to_u64-of_u64 : (w : ℕ) → w < 2 ^ 64 → to_u64 (of_u64 w) ≡ w
unfolding to_u64 of_u64
to_u64-of_u64 w h = ground arith

-- Two integers with the same low 64 bits.
abbrev pub Same : ℤ → ℤ → Type 0
Same a b = to_u64 a ≡ to_u64 b

crossed :
    (a b : ℤ) → Same a b → (pos_part a + neg_part b) % 2 ^ 64 ≡ (pos_part b + neg_part a) % 2 ^ 64
crossed a b h = omega (arith, parts a, parts b, h)

sub_ℕ-Same : (p n q m : ℕ) → (p + m) % 2 ^ 64 ≡ (q + n) % 2 ^ 64 → Same (sub_ℕ p n) (sub_ℕ q m)
sub_ℕ-Same p n q m h =
    omega
      (arith, h, to_u64-sub_ℕ p n, to_u64-sub_ℕ q m, to_u64-lt (sub_ℕ p n), to_u64-lt (sub_ℕ q m))

pub +ℤ-Same : (a a' b b' : ℤ) → Same a a' → Same b b' → Same (a +ℤ b) (a' +ℤ b')
unfolding ◌+ℤ◌
+ℤ-Same a a' b b' h g =
    sub_ℕ-Same (pos_part a + pos_part b) (neg_part a + neg_part b) (pos_part a' + pos_part b')
      (neg_part a' + neg_part b') (omega (arith, crossed a a' h, crossed b b' g))

pub -ℤ-Same : (a a' b b' : ℤ) → Same a a' → Same b b' → Same (a -ℤ b) (a' -ℤ b')
unfolding ◌-ℤ◌
-ℤ-Same a a' b b' h g =
    sub_ℕ-Same (pos_part a + neg_part b) (neg_part a + pos_part b) (pos_part a' + neg_part b')
      (neg_part a' + pos_part b') (omega (arith, crossed a a' h, crossed b b' g))

mod-times_mod : (m p u : ℕ) → (p * u) % m ≡ (p % m * u) % m
mod-times_mod m p u =
    ap (λ (q : ℕ). (q * u) % m) (sym (mod-add-div p m))
    ∙ ap (λ (q : ℕ). q % m)
        (add-mul (p % m) (m * (p / m)) u ∙ ap (λ (q : ℕ). p % m * u + q) (mul_assoc m (p / m) u))
    ∙ add-mul-mod_self_left (p % m * u) m (p / m * u)

mod-times : (m p q u : ℕ) → p % m ≡ q % m → (p * u) % m ≡ (q * u) % m
mod-times m p q u h =
    mod-times_mod m p u ∙ ap (λ (w : ℕ). (w * u) % m) h ∙ sym (mod-times_mod m q u)

-- The first factor of a product.
left-Same : (a a' b : ℤ) → Same a a' → Same (a *ℤ b) (a' *ℤ b)
unfolding ◌*ℤ◌
left-Same a a' b h =
    let p = pos_part a + neg_part a' in
    let q = pos_part a' + neg_part a in
    let u = pos_part b in
    let v = neg_part b in
    sub_ℕ-Same (pos_part a * u + neg_part a * v) (pos_part a * v + neg_part a * u)
      (pos_part a' * u + neg_part a' * v) (pos_part a' * v + neg_part a' * u)
      (omega (
        arith,
        mod-times (2 ^ 64) p q u (crossed a a' h),
        mod-times (2 ^ 64) p q v (crossed a a' h),
        add-mul (pos_part a) (neg_part a') u,
        add-mul (pos_part a) (neg_part a') v,
        add-mul (pos_part a') (neg_part a) u,
        add-mul (pos_part a') (neg_part a) v,
      ))

*ℤ_comm : (a b : ℤ) → a *ℤ b ≡ b *ℤ a
unfolding ◌*ℤ◌
*ℤ_comm a b =
    rw
      (
        mul_comm (pos_part a) (pos_part b),
        mul_comm (neg_part a) (neg_part b),
        mul_comm (pos_part a) (neg_part b),
        mul_comm (neg_part a) (pos_part b),
        add_comm (neg_part b * pos_part a) (pos_part b * neg_part a),
      )
      refl

pub *ℤ-Same : (a a' b b' : ℤ) → Same a a' → Same b b' → Same (a *ℤ b) (a' *ℤ b')
*ℤ-Same a a' b b' h g =
    left-Same a a' b h ∙ ap to_u64 (*ℤ_comm a' b) ∙ left-Same b b' a' g ∙ ap to_u64 (*ℤ_comm b' a')

pub wrap64-Same : (x : ℤ) → Same (wrap64 x) x
unfolding wrap64
wrap64-Same x = to_u64-of_u64 (to_u64 x) (to_u64-lt x)

-- Integers that are the same as int64 wrap to one.
pub of-Same : (x y : ℤ) → Same x y → wrap64 x ≡ wrap64 y
unfolding wrap64
of-Same x y h = ap of_u64 h
