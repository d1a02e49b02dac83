-- ===== src/Table/Cell/Escape.antt =====
-- Strings in keys: the escapes keep the order and read back, whatever follows.
use db.Prelude.{
  ℕ, suc, ◌<◌, ◌≡◌, refl, ◌∙◌, ap, [], ◌∷◌, ◌++◌, append_assoc, append-nil, zero, arith, Bytes,
  Ordering, lt, eq, gt,
}
use db.Bytes.Order.{cmp}
use db.Table.Cell.{Cell, done, with_str, escape, unescape}

-- The second comparison decides when the first is a tie.
abbrev pub then_by : Ordering → Ordering → Ordering
then_by lt b = lt
then_by eq b = b
then_by gt b = gt

pub cmp-escape :
    (a b r s : Bytes) → cmp (escape a ++ 0 ∷ r) (escape b ++ 0 ∷ s) ≡ then_by (cmp a b) (cmp r s)
unfolding cmp escape
cmp-escape [] [] r s = refl
cmp-escape [] (y ∷ b) r s = ground arith
cmp-escape (x ∷ a) [] r s = ground arith
cmp-escape (x ∷ a) (y ∷ b) r s = ground (arith, cmp-escape a b r s)

unescape_plain :
    (cell : Cell) (s : Bytes) (b : ℕ) (t : Bytes)
    → 1 < b
    → unescape cell s (b ∷ t) ≡ unescape cell (s ++ b ∷ []) t
unfolding unescape
unescape_plain cell s b [] h = ground arith
unescape_plain cell s b (c ∷ t) h = ground arith

unescape_end : (cell : Cell) (s t : Bytes) → unescape cell s (0 ∷ t) ≡ done (with_str cell s) t
unfolding unescape
unescape_end cell s [] = refl
unescape_end cell s (c ∷ t) = refl

unescape_escaped :
    (cell : Cell) (s : Bytes) (x : ℕ) (t : Bytes)
    → x < 2
    → unescape cell s (1 ∷ suc x ∷ t) ≡ unescape cell (s ++ x ∷ []) t
unfolding unescape
unescape_escaped cell s zero t h = refl
unescape_escaped cell s (suc zero) t h = refl
unescape_escaped cell s (suc (suc x)) t h = absurd (omega arith)

-- The escaped bytes come back, behind those already gathered.
pub unescape-escape :
    (cell : Cell) (s a r : Bytes)
    → unescape cell s (escape a ++ 0 ∷ r) ≡ done (with_str cell (s ++ a)) r
unfolding escape
unescape-escape cell s [] r = rw (unescape_end cell s r, append-nil s) refl
unescape-escape cell s (x ∷ a) r =
    let more : unescape cell (s ++ x ∷ []) (escape a ++ 0 ∷ r)
        ≡ done (with_str cell (s ++ x ∷ a)) r =
      unescape-escape cell (s ++ x ∷ []) a r
      ∙ ap (λ (t : Bytes). done (with_str cell t) r) (append_assoc s (x ∷ []) a) in
    ground (
      arith,
      more,
      unescape_plain cell s x (escape a ++ 0 ∷ r),
      unescape_escaped cell s x (escape a ++ 0 ∷ r),
    )
