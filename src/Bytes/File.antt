-- ===== src/Bytes/File.antt =====
-- Go's os.File as the bytes that it holds: ReadAt and WriteAt, and that a write keeps what is read
-- elsewhere.
use db.Prelude.{
  append-nil, ℕ, zero, suc, ◌+◌, ◌-◌, ◌≤◌, ◌<◌, ◌≡◌, refl, sym, ap, ◌∙◌, ◌⊎◌, inl, inr, Bool-cases,
  [], ◌∷◌, ◌++◌, Option, none, some, arith, Bytes, length, take, drop, replicate, ◌==◌,
  if◌then◌else◌, length-append, length-take, length-drop, take-append, drop-append, drop_past, leb,
  take_all,
}

-- ReadAt into a buffer of n bytes; none is an error, a short read included. An empty buffer is always
-- filled.
unfoldable pub read_at : ℕ → ℕ → Bytes → Option Bytes
read_at p n file =
    if n == 0
    then some []
    else if leb (p + n) (length file)
    then some (take n (drop p file))
    else none

-- The file extended with zeros to n bytes at least.
abbrev pub pad : ℕ → Bytes → Bytes
pad n file = file ++ replicate (n - length file) 0

-- WriteAt of all bytes. An empty write changes nothing.
unfoldable pub write_at : ℕ → Bytes → Bytes → Bytes
write_at p [] file = file
write_at p (b ∷ bs) file = take p (pad p file) ++ (b ∷ bs ++ drop (p + length (b ∷ bs)) file)

length-replicate : (n v : ℕ) → length (replicate n v) ≡ n
length-replicate zero v = refl
length-replicate (suc n) v = ap suc (length-replicate n v)

length-pad : (n : ℕ) (file : Bytes) → n ≤ length (pad n file)
length-pad n file = omega (
  arith,
  length-append file (replicate (n - length file) 0),
  length-replicate (n - length file) 0,
)

-- A slice of a list that is put together.
slice_left :
    (p n : ℕ) (xs ys : Bytes) → p + n ≤ length xs → take n (drop p (xs ++ ys)) ≡ take n (drop p xs)
slice_left zero zero xs ys h = refl
slice_left zero (suc n) [] ys h = absurd (omega arith)
slice_left zero (suc n) (x ∷ xs) ys h = ap (◌∷◌ x) (slice_left zero n xs ys (omega arith))
slice_left (suc p) n [] ys h = absurd (omega arith)
slice_left (suc p) n (x ∷ xs) ys h = slice_left p n xs ys (omega arith)

slice_take : (p n m : ℕ) (xs : Bytes) → p + n ≤ m → take n (drop p (take m xs)) ≡ take n (drop p xs)
slice_take zero zero m xs h = refl
slice_take zero (suc n) zero xs h = absurd (omega arith)
slice_take zero (suc n) (suc m) [] h = refl
slice_take zero (suc n) (suc m) (x ∷ xs) h = ap (◌∷◌ x) (slice_take zero n m xs (omega arith))
slice_take (suc p) n zero xs h = absurd (omega arith)
slice_take (suc p) n (suc m) [] h = refl
slice_take (suc p) n (suc m) (x ∷ xs) h = slice_take p n m xs (omega arith)

drop_right : (p : ℕ) (xs ys : Bytes) → length xs ≤ p → drop p (xs ++ ys) ≡ drop (p - length xs) ys
drop_right p [] ys h = ap (λ (t : ℕ). drop t ys) (omega arith)
drop_right zero (x ∷ xs) ys h = absurd (omega arith)
drop_right (suc p) (x ∷ xs) ys h =
    drop_right p xs ys (omega arith) ∙ ap (λ (t : ℕ). drop t ys) (omega arith)

drop-drop : (p q : ℕ) (xs : Bytes) → drop p (drop q xs) ≡ drop (q + p) xs
drop-drop p zero xs = ap (λ (t : ℕ). drop t xs) (omega arith)
drop-drop p (suc q) [] = drop_past [] p (omega arith) ∙ sym (drop_past [] (suc q + p) (omega arith))
drop-drop p (suc q) (x ∷ xs) = drop-drop p q xs ∙ ap (λ (t : ℕ). drop t (x ∷ xs)) (add_suc q p)
  where
    add_suc : (a b : ℕ) → suc (a + b) ≡ suc a + b
    add_suc a b = omega arith

read_at_in :
    (p n : ℕ) (file : Bytes) → p + n ≤ length file → read_at p n file ≡ some (take n (drop p file))
unfolding read_at
read_at_in p zero file h = refl
read_at_in p (suc n) file h = ground arith

read_at_out : (p n : ℕ) (file : Bytes) → 0 < n → length file < p + n → read_at p n file ≡ none
unfolding read_at
read_at_out p n file h l = ground arith

module _ (p : ℕ) (b : Bytes) (file : Bytes) (h : 0 < length b) where
  abbrev front : Bytes
  front = take p (pad p file)

  abbrev back : Bytes
  back = drop (p + length b) file

  write_at-parts : write_at p b file ≡ front ++ (b ++ back)
  unfolding write_at
  write_at-parts = parts b h
    where
      parts :
          (b : Bytes)
          → 0 < length b
          → write_at p b file ≡ take p (pad p file) ++ (b ++ drop (p + length b) file)
      parts [] h = absurd (omega arith)
      parts (x ∷ xs) h = refl

  length-front : length front ≡ p
  length-front = omega (arith, length-take p (pad p file), length-pad p file)

  length-write_at : length (write_at p b file) ≡ p + (length b + length back)
  length-write_at =
      rw write_at-parts
        (omega (arith, length-append front (b ++ back), length-append b back, length-front))

  -- What was written reads back.
  pub read_at-write_at : read_at p (length b) (write_at p b file) ≡ some b
  read_at-write_at =
      read_at_in p (length b) (write_at p b file) (omega (arith, length-write_at))
      ∙ ap some (
          rw
            (
              write_at-parts,
              drop_right p front (b ++ back) (omega (arith, length-front)),
              length-front,
            )
            (ap (λ (t : ℕ). take (length b) (drop t (b ++ back))) {x = p - p} {y = 0} (omega arith)
              ∙ take-append b back))

  slice_before :
      (q n : ℕ)
      → q + n ≤ p
      → q + n ≤ length file
      → take n (drop q (write_at p b file)) ≡ take n (drop q file)
  slice_before q n h l =
      rw (write_at-parts, slice_left q n front (b ++ back) (omega (arith, length-front)))
        (slice_take q n p (pad p file) h ∙ slice_left q n file (replicate (p - length file) 0) l)

  slice_after :
      (q n : ℕ) → p + length b ≤ q → take n (drop q (write_at p b file)) ≡ take n (drop q file)
  slice_after q n h = ap (take n) (
      rw
        (write_at-parts, drop_right q front (b ++ back) (omega (arith, length-front)), length-front)
        (drop_right (q - p) b back (omega arith)
          ∙ drop-drop (q - p - length b) (p + length b) file
          ∙ ap (λ (t : ℕ). drop t file) {x = p + length b + (q - p - length b)} {y = q}
              (omega arith)))

  -- What lies wholly before or after the bytes written is kept.
  pub read_at-write_at_apart :
      (q n : ℕ) (x : Bytes)
      → (q + n ≤ p) ⊎ (p + length b ≤ q)
      → read_at q n file ≡ some x
      → read_at q n (write_at p b file) ≡ some x
  read_at-write_at_apart q zero x apart e = unfold read_at in e
  read_at-write_at_apart q (suc n) x apart e = elim (Bool-cases (leb (q + suc n) (length file))) [
    | inl t ↦
        let l : q + suc n ≤ length file = ground arith in
        read_at_in q (suc n) (write_at p b file) (grown apart l)
        ∙ ap some (same apart l)
        ∙ sym (read_at_in q (suc n) file l)
        ∙ e
    | inr f ↦
        let gone : read_at q (suc n) file ≡ none =
          read_at_out q (suc n) file (omega arith) (ground arith) in
        cc
  ]
    where
      grown :
          (q + suc n ≤ p) ⊎ (p + length b ≤ q)
          → q + suc n ≤ length file
          → q + suc n ≤ length (write_at p b file)
      grown (inl a) l = omega (arith, length-write_at)
      grown (inr a) l = omega (arith, length-write_at, length-drop (p + length b) file)

      same :
          (q + suc n ≤ p) ⊎ (p + length b ≤ q)
          → q + suc n ≤ length file
          → take (suc n) (drop q (write_at p b file)) ≡ take (suc n) (drop q file)
      same (inl a) l = slice_before q (suc n) a l
      same (inr a) l = slice_after q (suc n) a

module _ (o : ℕ) (a b file : Bytes) where
  -- A read in two parts.
  pub read_at-append :
      0 < length a
      → read_at o (length a + length b) file ≡ some (a ++ b)
      → (read_at o (length a) file ≡ some a) × (read_at (o + length a) (length b) file ≡ some b)
  read_at-append h e = elim (Bool-cases (leb (o + (length a + length b)) (length file))) [
    | inl t ↦
        let l : o + (length a + length b) ≤ length file = ground arith in
        let whole = some_eq (sym (read_at_in o (length a + length b) file l) ∙ e) in
        (
          read_at_in o (length a) file (omega arith) ∙ ap some (left whole),
          read_at_in (o + length a) (length b) file (omega arith) ∙ ap some (right whole),
        )
    | inr f ↦ let gone = read_at_out o (length a + length b) file (omega arith) (ground arith) in cc
  ]
    where
      some_eq : {x y : Bytes} → some x ≡ some y → x ≡ y
      some_eq e = cc

      left : take (length a + length b) (drop o file) ≡ a ++ b → take (length a) (drop o file) ≡ a
      left w =
          sym (slice_take 0 (length a) (length a + length b) (drop o file) (omega arith))
          ∙ ap (take (length a)) w
          ∙ take-append a b

      right :
          take (length a + length b) (drop o file) ≡ a ++ b
          → take (length b) (drop (o + length a) file) ≡ b
      right w =
          ap (take (length b)) (sym (drop-drop (length a) o file))
          ∙ sym (slice_take (length a) (length b) (length a + length b) (drop o file) (omega arith))
          ∙ ap (λ (t : Bytes). take (length b) (drop (length a) t)) w
          ∙ ap (take (length b)) (drop-append a b)
          ∙ take_all (length b) b (omega arith)

-- A write at the end appends.
pub write_at-end : (c b : Bytes) → write_at (length c) b c ≡ c ++ b
unfolding write_at
write_at-end c [] = sym (append-nil c)
write_at-end c (b ∷ bs) =
    let none_left : length c - length c ≡ 0 = omega arith in
    let none_missing : pad (length c) c ≡ c =
      ap (λ (k : ℕ). c ++ replicate k 0) none_left ∙ append-nil c in
    rw
      (
        none_missing,
        take_all (length c) c (omega arith),
        drop_past c (length c + length (b ∷ bs)) (omega arith),
        append-nil (b ∷ bs),
      )
      refl
