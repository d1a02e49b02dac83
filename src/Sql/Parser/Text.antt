-- ===== src/Sql/Parser/Text.antt =====
-- sql/parse_value.go: a quoted text is read as what was quoted.
use db.Prelude.{
  ℕ, ◌≡◌, refl, sym, ap, ◌∙◌, true, false, [], ◌∷◌, ◌++◌, append-nil, append_assoc, arith, Bytes,
  All, inl, inr, Bool-cases, if◌then◌else◌,
}
use db.Sql.Parser.{
  value, str_cell, is_space, skip_spaces, is_quote, is_escapable, string_loop, parse_string,
  parse_value,
}

-- A backslash before each quote and backslash.
unfoldable pub escape : Bytes → Bytes
escape [] = []
escape (ch ∷ s) = let rest = escape s in if is_escapable ch then 92 ∷ ch ∷ rest else ch ∷ rest

abbrev pub quoted : ℕ → Bytes → Bytes
quoted quote s = quote ∷ (escape s ++ quote ∷ [])

pub skip_spaces-append :
    (spaces p : Bytes)
    → All (λ ch. is_space ch ≡ true) spaces
    → skip_spaces (spaces ++ p) ≡ skip_spaces p
unfolding skip_spaces
skip_spaces-append [] p h = refl
skip_spaces-append (ch ∷ spaces) p (h, hs) = ground (arith, h, skip_spaces-append spaces p hs)

pub skip_spaces-cons : (ch : ℕ) (p : Bytes) → is_space ch ≡ false → skip_spaces (ch ∷ p) ≡ ch ∷ p
unfolding skip_spaces
skip_spaces-cons ch p h = ground (arith, h)

quote-space : (quote : ℕ) → is_quote quote ≡ true → is_space quote ≡ false
unfolding is_space
quote-space quote h = ground arith

module _ (start : Bytes) (quote : ℕ) (h : is_quote quote ≡ true) where
  loop_close :
      (sb rest : Bytes) → string_loop start quote sb (quote ∷ rest) ≡ value (str_cell sb) rest
  unfolding string_loop
  loop_close sb [] = ground (arith, h)
  loop_close sb (ch ∷ rest) = ground (arith, h)

  loop_escaped :
      (sb p : Bytes) (ch : ℕ)
      → is_escapable ch ≡ true
      → string_loop start quote sb (92 ∷ ch ∷ p) ≡ string_loop start quote (sb ++ ch ∷ []) p
  unfolding string_loop
  loop_escaped sb p ch e = ground (arith, e)

  loop_plain :
      (sb p : Bytes) (ch : ℕ)
      → is_escapable ch ≡ false
      → string_loop start quote sb (ch ∷ p) ≡ string_loop start quote (sb ++ ch ∷ []) p
  unfolding string_loop
  loop_plain sb [] ch e = ground (arith, h, e)
  loop_plain sb (c ∷ p) ch e = ground (arith, h, e)

  escape-escaped :
      (ch : ℕ) (s : Bytes) → is_escapable ch ≡ true → escape (ch ∷ s) ≡ 92 ∷ ch ∷ escape s
  unfolding escape
  escape-escaped ch s e = ground (arith, e)

  escape-plain : (ch : ℕ) (s : Bytes) → is_escapable ch ≡ false → escape (ch ∷ s) ≡ ch ∷ escape s
  unfolding escape
  escape-plain ch s e = ground (arith, e)

  loop-escape :
      (s sb rest : Bytes)
      → string_loop start quote sb (escape s ++ quote ∷ rest) ≡ value (str_cell (sb ++ s)) rest
  loop-escape [] sb rest =
      unfold escape in
      loop_close sb rest ∙ ap (λ (t : Bytes). value (str_cell t) rest) (sym (append-nil sb))
  loop-escape (ch ∷ s) sb rest =
      let later =
        loop-escape s (sb ++ ch ∷ []) rest
        ∙ ap (λ (t : Bytes). value (str_cell t) rest) (append_assoc sb (ch ∷ []) s) in
      elim (Bool-cases (is_escapable ch)) [
        | inl e ↦
            rw (escape-escaped ch s e) (loop_escaped sb (escape s ++ quote ∷ rest) ch e ∙ later)
        | inr e ↦ rw (escape-plain ch s e) (loop_plain sb (escape s ++ quote ∷ rest) ch e ∙ later)
      ]

  parse_value_step : (p : Bytes) → parse_value (quote ∷ p) ≡ string_loop (quote ∷ p) quote [] p
  unfolding parse_value parse_string
  parse_value_step p = ground (arith, skip_spaces-cons quote p (quote-space quote h), h)

pub parse_value-spaces :
    (spaces p : Bytes)
    → All (λ ch. is_space ch ≡ true) spaces
    → parse_value (spaces ++ p) ≡ parse_value p
unfolding parse_value
parse_value-spaces spaces p h = rw (skip_spaces-append spaces p h)

-- After any spaces, any bytes that are quoted with ' or " and escaped parse as a text cell of those
-- bytes, and the parser stands behind the closing quote.
pub parse_value-quoted :
    (spaces s rest : Bytes) (quote : ℕ)
    → All (λ ch. is_space ch ≡ true) spaces
    → is_quote quote ≡ true
    → parse_value (spaces ++ (quoted quote s ++ rest)) ≡ value (str_cell s) rest
parse_value-quoted spaces s rest quote a h =
    parse_value-spaces spaces (quoted quote s ++ rest) a
    ∙ rw (append_assoc (escape s) (quote ∷ []) rest) (
        parse_value_step [] quote h (escape s ++ quote ∷ rest)
        ∙ loop-escape (quote ∷ (escape s ++ quote ∷ rest)) quote h s [] rest)
