-- ===== src/Bytes/Reader.antt =====
-- Go's slice expressions, and io.ReadFull on a stream of the bytes that are left.
use db.Prelude.{
  ℕ, ◌-◌, ◌<◌, ◌≡◌, [], ◌++◌, arith, Bytes, length, take, drop, ltb, ◌==◌, if◌then◌else◌,
  length-append, take-append, drop-append,
}

-- b[lo:hi] of a slice that is long enough.
abbrev pub slice : ℕ → ℕ → Bytes → Bytes
slice lo hi b = take (hi - lo) (drop lo b)

-- What io.ReadFull returns for a buffer of a given length, and the stream that is left. A short
-- read consumes the stream.
pub data Filled : Type 0 where
  full : Bytes → Bytes → Filled
  eof : Filled
  unexpected_eof : Filled

unfoldable pub read_full : ℕ → Bytes → Filled
read_full n r =
    if ltb (length r) n
    then (if length r == 0 then eof else unexpected_eof)
    else full (take n r) (drop n r)

pub read_full-append : (n : ℕ) (a b : Bytes) → length a ≡ n → read_full n (a ++ b) ≡ full a b
unfolding read_full
read_full-append n a b e =
    rw (← e) (ground (arith, length-append a b, take-append a b, drop-append a b))

-- A stream that is too short, but not empty, ends unexpectedly.
pub read_full_short :
    (n : ℕ) (r : Bytes) → 0 < length r → length r < n → read_full n r ≡ unexpected_eof
unfolding read_full
read_full_short n r p h = ground arith

pub read_full_none : (n : ℕ) → 0 < n → read_full n [] ≡ eof
unfolding read_full
read_full_none n h = ground arith
