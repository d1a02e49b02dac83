-- ===== src/Bytes/Crc.antt =====
-- hash/crc32 with the IEEE polynomial, bit by bit. Go's tables give the same function. Writing two
-- slices to a `crc32.NewIEEE()` sums their concatenation.
use Prim.Native.Nat.{bit_xor}
use db.Prelude.{
  ℕ, zero, suc, ◌/◌, ◌%◌, ◌^◌, ◌<◌, ◌≡◌, refl, [], ◌∷◌, arith, Bytes, ◌==◌, if◌then◌else◌,
}

crc_bits : ℕ → ℕ → ℕ
crc_bits zero c = c
crc_bits (suc n) c = crc_bits n (if c % 2 == 1 then bit_xor (c / 2) 0xedb88320 else c / 2)

crc_bytes : ℕ → Bytes → ℕ
crc_bytes c [] = c
crc_bytes c (b ∷ bs) = crc_bytes (crc_bits 8 (bit_xor c b)) bs

-- crc32.ChecksumIEEE, a uint32.
unfoldable pub crc32 : Bytes → ℕ
unfolding crc_bits crc_bytes
crc32 bs = bit_xor (crc_bytes 0xffffffff bs) 0xffffffff % 2 ^ 32

pub crc32-lt : (bs : Bytes) → crc32 bs < 2 ^ 32
unfolding crc32
crc32-lt bs = omega arith

check_value : crc32 (b'1' ∷ b'2' ∷ b'3' ∷ b'4' ∷ b'5' ∷ b'6' ∷ b'7' ∷ b'8' ∷ b'9' ∷ []) ≡ 0xcbf43926
unfolding crc32
check_value = refl
