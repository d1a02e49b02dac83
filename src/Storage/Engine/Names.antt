-- ===== src/Storage/Engine/Names.antt =====
-- The names that the metadata holds, cut where two neighbouring levels stand.
use db.Prelude.{
  ℕ, suc, ◌+◌, ◌≡◌, ◌≢◌, refl, sym, ap, ◌∙◌, List, [], ◌∷◌, ◌++◌, arith, Bytes, All, All-imp,
  All-append, drop, get_or, length,
}
use db.Storage.Run.{Rec}
use db.Storage.Engine.{Dir}
use db.Storage.Engine.Stored.{Opens, Distinct}

-- The names of the levels above two neighbours, of the two, and of those below.
pub record Cut (dir : Dir) (names : List Bytes) (above : List (List Rec)) (upper lower : List Rec)
    (below : List (List Rec)) : Type 0 where
  pub pre : List Bytes
  pub post : List Bytes
  pub first : Bytes
  pub second : Bytes
  pub names_eq : names ≡ pre ++ first ∷ second ∷ post
  pub length_eq : length pre ≡ length above
  pub opens_pre : Opens dir pre above
  pub opens_post : Opens dir post below

pub cut :
    (dir : Dir) (names : List Bytes) (above : List (List Rec)) (upper lower : List Rec)
    (below : List (List Rec))
    → Opens dir names (above ++ upper ∷ lower ∷ below)
    → Cut dir names above upper lower below
cut dir [] [] upper lower below h = absurd h
cut dir (a ∷ []) [] upper lower below (e, h) = absurd h
cut dir (a ∷ b ∷ names) [] upper lower below (e, (f, h)) = record {
  pre = [];
  post = names;
  first = a;
  second = b;
  names_eq = refl;
  length_eq = refl;
  opens_pre = tt;
  opens_post = h;
}
cut dir [] (rs ∷ above) upper lower below h = absurd h
cut dir (n ∷ names) (rs ∷ above) upper lower below (e, h) =
    let c = cut dir names above upper lower below h in
    record {
      pre = n ∷ c.pre;
      post = c.post;
      first = c.first;
      second = c.second;
      names_eq = ap (◌∷◌ n) c.names_eq;
      length_eq = ap suc c.length_eq;
      opens_pre = (e, c.opens_pre);
      opens_post = c.opens_post;
    }

All-without {ℓ} :
    (P : Bytes → Type ℓ) (ns ms : List Bytes) (a : Bytes)
    → All P (ns ++ a ∷ ms)
    → P a × All P (ns ++ ms)
All-without P [] ms a h = h
All-without P (n ∷ ns) ms a (p, h) = let (q, r) = All-without P ns ms a h in (q, (p, r))

-- Without one of the names, all others are different from it.
pub Distinct-without :
    (ns ms : List Bytes) (a : Bytes)
    → Distinct (ns ++ a ∷ ms)
    → Distinct (ns ++ ms) × All (λ m. m ≢ a) (ns ++ ms)
Distinct-without [] ms a (f, d) = (d, All-imp (λ m ne e. ne (sym e)) ms f)
Distinct-without (n ∷ ns) ms a (f, d) =
    let (ne, rest) = All-without (λ m. n ≢ m) ns ms a f in
    let (d', g) = Distinct-without ns ms a d in ((rest, d'), (ne, g))

module _ {ℓ κ} {A : Type ℓ} (P : A → Type κ) where
  pub All-left : (xs ys : List A) → All P (xs ++ ys) → All P xs
  All-left [] ys h = tt
  All-left (x ∷ xs) ys (p, h) = (p, All-left xs ys h)

  pub All-right : (xs ys : List A) → All P (xs ++ ys) → All P ys
  All-right [] ys h = h
  All-right (x ∷ xs) ys (p, h) = All-right xs ys h

  pub All-insert : (xs ys : List A) (y : A) → P y → All P (xs ++ ys) → All P (xs ++ y ∷ ys)
  All-insert [] ys y q h = (q, h)
  All-insert (x ∷ xs) ys y q (p, h) = (p, All-insert xs ys y q h)

-- The list at and behind a position.
module _ {ℓ} {A : Type ℓ} where
  pub get_or-first : (xs ys : List A) (a d : A) → get_or (xs ++ a ∷ ys) (length xs) d ≡ a
  get_or-first [] ys a d = refl
  get_or-first (x ∷ xs) ys a d = get_or-first xs ys a d

  pub get_or-second : (xs ys : List A) (a b d : A) → get_or (xs ++ a ∷ b ∷ ys) (length xs + 1) d ≡ b
  get_or-second xs ys a b d =
      ap (λ (i : ℕ). get_or (xs ++ a ∷ b ∷ ys) i d) {y = suc (length xs)} (omega arith) ∙ go xs
    where
      go : (xs : List A) → get_or (xs ++ a ∷ b ∷ ys) (suc (length xs)) d ≡ b
      go [] = refl
      go (x ∷ xs) = go xs

  pub drop-two : (xs ys : List A) (a b : A) → drop (length xs + 2) (xs ++ a ∷ b ∷ ys) ≡ ys
  drop-two xs ys a b =
      ap (λ (i : ℕ). drop i (xs ++ a ∷ b ∷ ys)) {y = suc (suc (length xs))} (omega arith) ∙ go xs
    where
      go : (xs : List A) → drop (suc (suc (length xs))) (xs ++ a ∷ b ∷ ys) ≡ ys
      go [] = refl
      go (x ∷ xs) = go xs

-- With the names of the two neighbours cut out and a new one put in: what is left is distinct, and
-- neither of the two names is among the rest.
pub removable :
    (pre post : List Bytes) (a b new : Bytes)
    → Distinct (pre ++ a ∷ b ∷ post)
    → (a ≢ new) × (b ≢ new)
    → Distinct (pre ++ post)
      × All (λ m. m ≢ a) (pre ++ new ∷ post)
      × All (λ m. m ≢ b) (pre ++ new ∷ post)
removable pre post a b new d (na, nb) =
    let (d1, fa) = Distinct-without pre (b ∷ post) a d in
    let (d2, fb) = Distinct-without pre post b d1 in
    let fa' =
      All-append (λ (m : Bytes). m ≢ a) pre post (All-left (λ m. m ≢ a) pre (b ∷ post) fa)
        (All-right (λ m. m ≢ a) pre (b ∷ post) fa).1 in
    (
      d2,
      All-insert (λ m. m ≢ a) pre post new (λ e. na (sym e)) fa',
      All-insert (λ m. m ≢ b) pre post new (λ e. nb (sym e)) fb,
    )
