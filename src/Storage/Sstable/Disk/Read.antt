-- ===== src/Storage/Sstable/Disk/Read.antt =====
-- storage/sstable.go: `index` reads what `encodeKV` wrote, at the offset that its slot holds.
use db.Prelude.{
  ℕ, ◌+◌, ◌*◌, ◌%◌, ◌^◌, ◌≤◌, ◌<◌, ◌≡◌, refl, ap, ◌∙◌, Bool, true, false, [], ◌∷◌, ◌++◌, some,
  arith, Bytes, length, take, drop, get_or, ◌==◌, if◌then◌else◌, append_assoc, length-append,
  take-append, drop-append, not,
}
use db.Bytes.Endian.{le_bytes, from_le, length-le_bytes, from_le-le_bytes}
use db.Bytes.Reader.{slice}
use db.Bytes.File.{read_at, read_at-append}
use db.Storage.Run.{Rec}
use db.Storage.Sstable.Disk.{encode_kv, read_record, read_body, pread}

-- The lengths fit the uint32 that the body's size is computed in.
abbrev pub Sized : Rec → Type 0
Sized r = length r.key + length r.val < 2 ^ 32

abbrev flag : Rec → ℕ
flag r = if r.deleted then 1 else 0

abbrev header : Rec → Bytes
header r = le_bytes 4 (length r.key) ++ (le_bytes 4 (length r.val) ++ (flag r ∷ []))

abbrev pub record_size : Rec → ℕ
record_size r = 9 + (length r.key + length r.val)

encode_kv_parts : (r : Rec) → encode_kv r ≡ header r ++ (r.key ++ r.val)
unfolding encode_kv
encode_kv_parts r = simp append_assoc

length-header : (r : Rec) → length (header r) ≡ 9
length-header r = omega (
  arith,
  length-append (le_bytes 4 (length r.key)) (le_bytes 4 (length r.val) ++ (flag r ∷ [])),
  length-append (le_bytes 4 (length r.val)) (flag r ∷ []),
  length-le_bytes 4 (length r.key),
  length-le_bytes 4 (length r.val),
)

pub length-encode_kv : (r : Rec) → length (encode_kv r) ≡ record_size r
length-encode_kv r = rw (encode_kv_parts r) (
    omega (
      arith,
      length-append (header r) (r.key ++ r.val),
      length-append r.key r.val,
      length-header r,
    ))

-- A position that an int64 holds.
pub pread_in : (p n : ℕ) (file : Bytes) → p < 2 ^ 63 → pread p n file ≡ read_at p n file
pread_in p n file h = let e : p % 2 ^ 64 ≡ p = omega arith in ground (arith, e)

klen_bytes : (r : Rec) → slice 0 4 (header r) ≡ le_bytes 4 (length r.key)
unfolding le_bytes
klen_bytes r = refl

vlen_bytes : (r : Rec) → slice 4 8 (header r) ≡ le_bytes 4 (length r.val)
unfolding le_bytes
vlen_bytes r = refl

header_flag : (r : Rec) → not (get_or (header r) 8 0 == 0) ≡ r.deleted
unfolding le_bytes
header_flag r = flag_lem r.deleted
  where
    flag_lem : (b : Bool) → not ((if b then 1 else 0) == 0) ≡ b
    flag_lem true = refl
    flag_lem false = refl

header_klen : (r : Rec) → Sized r → from_le (slice 0 4 (header r)) ≡ length r.key
header_klen r h = ap from_le (klen_bytes r) ∙ from_le-le_bytes 4 (length r.key) (omega arith)

header_vlen : (r : Rec) → Sized r → from_le (slice 4 8 (header r)) ≡ length r.val
header_vlen r h = ap from_le (vlen_bytes r) ∙ from_le-le_bytes 4 (length r.val) (omega arith)

body_step :
    (p klen vlen : ℕ) (hdr file body : Bytes)
    → from_le (slice 0 4 hdr) ≡ klen
    → from_le (slice 4 8 hdr) ≡ vlen
    → pread p ((klen + vlen) % 2 ^ 32) file ≡ some body
    → klen ≤ length body
    → read_body p hdr file
      ≡ some (record {
        key = take klen body;
        val = drop klen body;
        deleted = not (get_or hdr 8 0 == 0);
      })
body_step p klen vlen hdr file body k v e h =
    let e' : pread p ((from_le (slice 0 4 hdr) + from_le (slice 4 8 hdr)) % 2 ^ 32) file
        ≡ some body =
      rw (k, v) e in
    ground (arith, k, v, e')

record_step :
    (n o : ℕ) (hdr file : Bytes)
    → 8 + 8 * n ≤ o
    → o < 2 ^ 63
    → pread o 9 file ≡ some hdr
    → read_record n o file ≡ read_body (o + 9) hdr file
record_step n o hdr file l h e =
    let small : (8 + 8 * n) % 2 ^ 64 ≡ 8 + 8 * n = omega arith in rw (e, small) (ground arith)

module _ (r : Rec) (s : Sized r) (o : ℕ) (h : o + record_size r < 2 ^ 63) (file : Bytes)
    (e : read_at o (length (encode_kv r)) file ≡ some (encode_kv r)) where
  parts :
      (read_at o 9 file ≡ some (header r))
      × (read_at (o + 9) (length r.key + length r.val) file ≡ some (r.key ++ r.val))
  parts =
      let size : length (encode_kv r) ≡ length (header r) + length (r.key ++ r.val) =
        rw (encode_kv_parts r) (length-append (header r) (r.key ++ r.val)) in
      let whole : read_at o (length (header r) + length (r.key ++ r.val)) file
          ≡ some (header r ++ (r.key ++ r.val)) =
        rw (← size, ← encode_kv_parts r) e in
      let both =
        read_at-append o (header r) (r.key ++ r.val) file (omega (arith, length-header r)) whole in
      (rw (← length-header r) both.0, rw (← length-append r.key r.val, ← length-header r) both.1)

  body_read : read_body (o + 9) (header r) file ≡ some r
  body_read =
      let small : (length r.key + length r.val) % 2 ^ 32 ≡ length r.key + length r.val =
        omega arith in
      body_step (o + 9) (length r.key) (length r.val) (header r) file (r.key ++ r.val)
        (header_klen r s) (header_vlen r s)
        (rw small (pread_in (o + 9) (length r.key + length r.val) file (omega arith) ∙ parts.1))
        (omega (arith, length-append r.key r.val))
      ∙ rw (take-append r.key r.val, drop-append r.key r.val, header_flag r) refl

  pub read_record_lem : (n : ℕ) → 8 + 8 * n ≤ o → read_record n o file ≡ some r
  read_record_lem n l =
      record_step n o (header r) file l (omega arith) (pread_in o 9 file (omega arith) ∙ parts.0)
      ∙ body_read
