-- ===== src/Storage/Entry.antt =====
-- storage/entry.go: one record of the write-ahead log, with a checksum in front.
pub mod RoundTrip
use db.Prelude.{
  ℕ, ◌+◌, ◌%◌, ◌^◌, Bool, true, false, not, List, [], ◌∷◌, ◌++◌, Bytes, length, drop, get_or, take,
  leb, ◌==◌, if◌then◌else◌,
}
use db.Bytes.Endian.{le_bytes, from_le}
use db.Bytes.Crc.{crc32}
use db.Bytes.Reader.{slice, Filled, full, read_full}

pub record Entry : Type 0 where
  pub key : Bytes
  pub val : Bytes
  pub deleted : Bool

-- uint32(n)
abbrev pub u32 : ℕ → ℕ
u32 n = n % 2 ^ 32

-- key size, val size and the deleted flag: the header that the checksum covers.
unfoldable pub sizes : Entry → Bytes
sizes ent =
    le_bytes 4 (u32 (length ent.key))
    ++ (le_bytes 4 (u32 (length ent.val)) ++ (if ent.deleted then 1 else 0) ∷ [])

unfoldable pub encode : Entry → Bytes
unfolding sizes
encode ent = let rest = sizes ent ++ (ent.key ++ ent.val) in le_bytes 4 (crc32 rest) ++ rest

-- What Decode returns: nil (with the record), io.EOF, io.ErrUnexpectedEOF or ErrBadSum. `panic` is
-- the slice expression out of range.
pub data Decoded : Type 0 where
  done : Entry → Decoded
  eof unexpected_eof bad_sum panic : Decoded

-- From the header on: the body, the checksum and the two slices of the body.
unfoldable pub decode_body : Bytes → Filled → Decoded × Bytes
decode_body hdr Filled.eof = (unexpected_eof, [])
decode_body hdr Filled.unexpected_eof = (unexpected_eof, [])
decode_body hdr (full body rest) =
    let klen = from_le (slice 4 8 hdr) in
    if not (crc32 (drop 4 hdr ++ body) == from_le (slice 0 4 hdr))
    then (bad_sum, rest)
    else if leb klen (length body)
    then (
      done (record {
        key = take klen body;
        val = drop klen body;
        deleted = not (get_or hdr 12 0 == 0);
      }),
      rest,
    )
    else (panic, rest)

unfoldable pub decode_header : Filled → Decoded × Bytes
unfolding decode_body
decode_header Filled.eof = (eof, [])
decode_header Filled.unexpected_eof = (unexpected_eof, [])
decode_header (full hdr r) =
    decode_body hdr (read_full (u32 (from_le (slice 4 8 hdr) + from_le (slice 8 12 hdr))) r)

-- Decode: the outcome and the stream behind what was read.
unfoldable pub decode : Bytes → Decoded × Bytes
unfolding decode_header
decode r = decode_header (read_full 13 r)
