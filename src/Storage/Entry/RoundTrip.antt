-- ===== src/Storage/Entry/RoundTrip.antt =====
-- Decoding what was encoded, and what a torn write decodes to.
use db.Prelude.{
  ℕ, zero, suc, ◌+◌, ◌-◌, ◌^◌, ◌≤◌, ◌<◌, ◌≡◌, refl, sym, ap, ◌∙◌, not, [], ◌++◌, arith,
  append_assoc, Bytes, length, drop, get_or, take, ◌==◌, ltb, if◌then◌else◌, length-append,
  length-take, take-append, drop-append, take_past_append, inl, inr, Bool-cases, ltb→lt,
}
use db.Bytes.Endian.{le_bytes, from_le, from_le-le_bytes}
use db.Bytes.Crc.{crc32, crc32-lt}
use db.Bytes.Reader.{slice, full, read_full, read_full-append, read_full_short, read_full_none}
use db.Storage.Entry.{Entry, u32, sizes, encode, done, eof, unexpected_eof, decode_body, decode}

-- The lengths fit the two size fields, and their sum fits a uint32.
abbrev pub Fits : Entry → Type 0
Fits ent = length ent.key + length ent.val < 2 ^ 32

-- The 13 bytes that Decode reads first.
header : Entry → Bytes
header ent = le_bytes 4 (crc32 (sizes ent ++ (ent.key ++ ent.val))) ++ sizes ent

encode-header : (ent : Entry) → encode ent ≡ header ent ++ (ent.key ++ ent.val)
unfolding encode header
encode-header ent = sym (append_assoc (le_bytes 4 _) (sizes ent) (ent.key ++ ent.val))

length-header : (ent : Entry) → length (header ent) ≡ 13
unfolding header sizes le_bytes
length-header ent = refl

sum_field :
    (ent : Entry) → slice 0 4 (header ent) ≡ le_bytes 4 (crc32 (sizes ent ++ (ent.key ++ ent.val)))
unfolding header le_bytes
sum_field ent = refl

covered : (ent : Entry) → drop 4 (header ent) ≡ sizes ent
unfolding header le_bytes
covered ent = refl

key_field : (ent : Entry) → slice 4 8 (header ent) ≡ le_bytes 4 (u32 (length ent.key))
unfolding header sizes le_bytes
key_field ent = refl

val_field : (ent : Entry) → slice 8 12 (header ent) ≡ le_bytes 4 (u32 (length ent.val))
unfolding header sizes le_bytes
val_field ent = refl

deleted_field : (ent : Entry) → not (get_or (header ent) 12 0 == 0) ≡ ent.deleted
unfolding header sizes le_bytes
deleted_field ent = ground arith

word_u32 : (n : ℕ) → n < 2 ^ 32 → from_le (le_bytes 4 (u32 n)) ≡ n
word_u32 n h = from_le-le_bytes 4 (u32 n) (omega arith) ∙ omega arith

module _ (ent : Entry) (fits : Fits ent) where
  key_size : from_le (slice 4 8 (header ent)) ≡ length ent.key
  key_size = rw key_field (word_u32 (length ent.key) (omega arith))

  val_size : from_le (slice 8 12 (header ent)) ≡ length ent.val
  val_size = rw val_field (word_u32 (length ent.val) (omega arith))

  stored_sum :
      from_le (slice 0 4 (header ent)) ≡ crc32 (drop 4 (header ent) ++ (ent.key ++ ent.val))
  stored_sum =
      rw (sum_field, covered)
        (from_le-le_bytes 4 (crc32 (sizes ent ++ (ent.key ++ ent.val))) (crc32-lt _))

  decode_body-header :
      (rest : Bytes) → decode_body (header ent) (full (ent.key ++ ent.val) rest) ≡ (done ent, rest)
  unfolding decode_body
  decode_body-header rest =
      rw (key_size, stored_sum, deleted_field)
        (ground (
          arith,
          length-append ent.key ent.val,
          take-append ent.key ent.val,
          drop-append ent.key ent.val,
        ))

  body_length :
      u32 (from_le (slice 4 8 (header ent)) + from_le (slice 8 12 (header ent)))
      ≡ length (ent.key ++ ent.val)
  body_length = rw (key_size, val_size) (omega (arith, length-append ent.key ent.val))

  -- Decode returns the record that Encode wrote, where its sizes fit 32 bits together, and leaves the
  -- bytes that follow it.
  pub decode-encode : (rest : Bytes) → decode (encode ent ++ rest) ≡ (done ent, rest)
  unfolding decode
  decode-encode rest =
      rw
        (
          encode-header,
          append_assoc (header ent) (ent.key ++ ent.val) rest,
          read_full-append 13 (header ent) ((ent.key ++ ent.val) ++ rest) (length-header ent),
          body_length,
          read_full-append (length (ent.key ++ ent.val)) (ent.key ++ ent.val) rest refl,
        )
        (decode_body-header rest)

  -- A body that is too short, an empty one too, is an unexpected end.
  short_body :
      (hdr r : Bytes) (n : ℕ)
      → length r < n
      → decode_body hdr (read_full n r) ≡ (unexpected_eof, [])
  unfolding decode_body read_full
  short_body hdr r n h = ground arith

  torn_body :
      (n : ℕ)
      → length (header ent) ≤ n
      → n < length (encode ent)
      → decode (take n (encode ent)) ≡ (unexpected_eof, [])
  unfolding decode
  torn_body n lo hi =
      let body = ent.key ++ ent.val in
      let whole =
        ap (λ (b : Bytes). length b) (encode-header ent) ∙ length-append (header ent) body in
      let n' = n - length (header ent) in
      rw
        (
          encode-header,
          take_past_append n (header ent) body lo,
          read_full-append 13 (header ent) (take n' body) (length-header ent),
          body_length,
        )
        (short_body (header ent) (take n' body) (length body)
          (omega (arith, length-take n' body, whole, length-header ent)))

pub decode_empty : decode [] ≡ (eof, [])
unfolding decode
decode_empty = rw (read_full_none 13 (omega arith))

decode_short : (r : Bytes) → 0 < length r → length r < 13 → decode r ≡ (unexpected_eof, [])
unfolding decode
decode_short r p h = rw (read_full_short 13 r p h)

-- A proper prefix of an encoded record whose sizes fit 32 bits decodes to the end of the log: a clean one if nothing was written, else an unexpected one.
pub decode_torn :
    (ent : Entry) (n : ℕ)
    → Fits ent
    → n < length (encode ent)
    → decode (take n (encode ent)) ≡ (if n == 0 then eof else unexpected_eof, [])
decode_torn ent zero fits h = decode_empty
decode_torn ent (suc n) fits h = ground (arith, torn)
  where
    torn : decode (take (suc n) (encode ent)) ≡ (unexpected_eof, [])
    torn = elim (Bool-cases (ltb (suc n) 13)) [
      | inl e ↦
          let size = length-take (suc n) (encode ent) in
          decode_short (take (suc n) (encode ent)) (omega arith)
            (omega (arith, ltb→lt (suc n) 13 e))
      | inr e ↦ torn_body ent fits (suc n) (ground (arith, length-header ent)) h
    ]

-- A record takes 13 bytes at least.
pub length-encode : (ent : Entry) → length (encode ent) ≡ 13 + length ent.key + length ent.val
length-encode ent = rw encode-header (
    omega (
      arith,
      length-append (header ent) (ent.key ++ ent.val),
      length-header ent,
      length-append ent.key ent.val,
    ))
