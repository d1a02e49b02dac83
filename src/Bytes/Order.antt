-- ===== src/Bytes/Order.antt =====
-- bytes.Compare and bytes.Equal: byte slices in lexicographic order.
use db.Prelude.{
  ◌≡◌, refl, ◌≢◌, Bool, true, false, inl, inr, Ordering-cases, [], ◌∷◌, ◌++◌, arith, compare,
  Ordering, lt, eq, gt, Bytes,
}

-- The order of the first difference; a proper prefix comes first.
unfoldable pub cmp : Bytes → Bytes → Ordering
cmp [] [] = eq
cmp [] (y ∷ ys) = lt
cmp (x ∷ xs) [] = gt
cmp (x ∷ xs) (y ∷ ys) = elim (compare x y) [ lt ↦ lt | eq ↦ cmp xs ys | gt ↦ gt ]

infix 50 ◌≺◌
abbrev pub ◌≺◌ : Bytes → Bytes → Type 0
a ≺ b = cmp a b ≡ lt

abbrev pub is_lt : Ordering → Bool
is_lt lt = true
is_lt _ = false

abbrev pub is_eq : Ordering → Bool
is_eq eq = true
is_eq _ = false

abbrev pub flip : Ordering → Ordering
flip lt = gt
flip eq = eq
flip gt = lt

pub cmp_refl : (a : Bytes) → cmp a a ≡ eq
unfolding cmp
cmp_refl [] = refl
cmp_refl (x ∷ xs) = ground (arith, cmp_refl xs)

pub eq_of_cmp : (a b : Bytes) → cmp a b ≡ eq → a ≡ b
unfolding cmp
eq_of_cmp [] [] h = refl
eq_of_cmp [] (y ∷ ys) h = cc
eq_of_cmp (x ∷ xs) [] h = cc
eq_of_cmp (x ∷ xs) (y ∷ ys) h = ground (arith, eq_of_cmp xs ys)

pub cmp-flip : (a b : Bytes) → cmp b a ≡ flip (cmp a b)
unfolding cmp
cmp-flip [] [] = refl
cmp-flip [] (y ∷ ys) = refl
cmp-flip (x ∷ xs) [] = refl
cmp-flip (x ∷ xs) (y ∷ ys) = ground (arith, cmp-flip xs ys)

pub lt_of_gt : (a b : Bytes) → cmp a b ≡ gt → b ≺ a
lt_of_gt a b h = ground (arith, cmp-flip a b)

pub gt_of_lt : (a b : Bytes) → a ≺ b → cmp b a ≡ gt
gt_of_lt a b h = ground (arith, cmp-flip a b)

pub lt_trans : (a b c : Bytes) → a ≺ b → b ≺ c → a ≺ c
unfolding cmp
lt_trans [] [] c h k = cc
lt_trans [] (y ∷ ys) [] h k = cc
lt_trans [] (y ∷ ys) (z ∷ zs) h k = refl
lt_trans (x ∷ xs) [] c h k = cc
lt_trans (x ∷ xs) (y ∷ ys) [] h k = cc
lt_trans (x ∷ xs) (y ∷ ys) (z ∷ zs) h k = ground (arith, lt_trans xs ys zs)

pub lt_irrefl : (a : Bytes) → cmp a a ≢ lt
lt_irrefl a h = cc (cmp_refl a)

pub ne_of_lt : (a b : Bytes) → a ≺ b → a ≢ b
ne_of_lt a b h e = ground (arith, cmp_refl a)

-- A common prefix does not matter.
pub cmp-append : (p a b : Bytes) → cmp (p ++ a) (p ++ b) ≡ cmp a b
unfolding cmp
cmp-append [] a b = refl
cmp-append (x ∷ p) a b = ground (arith, cmp-append p a b)

-- "Not before", as a Boolean test: reflexive, transitive, and a bound for what follows.
pub not_lt_refl : (a : Bytes) → is_lt (cmp a a) ≡ false
not_lt_refl a = ground (arith, cmp_refl a)

pub not_lt_trans :
    (a b c : Bytes) → is_lt (cmp a b) ≡ false → is_lt (cmp b c) ≡ false → is_lt (cmp a c) ≡ false
not_lt_trans a b c h k = elim (Ordering-cases (cmp b c)) [
  | inl e ↦ absurd (ground (arith, e))
  | inr (inl e) ↦ rw (← eq_of_cmp b c e) h
  | inr (inr e) ↦ ground (arith, lt_trans a c b, lt_of_gt b c e)
]

pub not_lt_of_lt : (a b : Bytes) → a ≺ b → is_lt (cmp b a) ≡ false
not_lt_of_lt a b h = ground (arith, gt_of_lt a b)
