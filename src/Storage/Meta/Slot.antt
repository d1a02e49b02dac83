-- ===== src/Storage/Meta/Slot.antt =====
-- A slot that was written reads back.
use db.Prelude.{◌+◌, ◌≡◌, refl, true, ◌++◌, arith, Bytes, ◌-◌, length, take, drop}
use db.Bytes.Endian.{le_bytes, from_le, from_le-le_bytes}
use db.Bytes.Crc.{crc32, crc32-lt}
use db.Bytes.Reader.{slice}
use db.Storage.Meta.{KvMetaData, Json, ReadsBack, open_item, slot_bytes}

module _ (json : Json) (d : KvMetaData) where
  abbrev body : Bytes
  body = le_bytes 8 d.version ++ json.marshal d

  sum_field : slice 0 4 (slot_bytes json d) ≡ le_bytes 4 (crc32 body)
  unfolding slot_bytes le_bytes
  sum_field = refl

  covered : drop 4 (slot_bytes json d) ≡ body
  unfolding slot_bytes le_bytes
  covered = refl

  text : drop 12 (slot_bytes json d) ≡ json.marshal d
  unfolding slot_bytes le_bytes
  text = refl

  long_enough : 12 + length (json.marshal d) ≡ length (slot_bytes json d)
  unfolding slot_bytes le_bytes
  long_enough = omega arith

  -- Opening a file that holds a written slot gives its metadata back, as a valid slot, where their text
  -- reads back.
  pub open_item-slot_bytes :
      ReadsBack json d
      → open_item json (slot_bytes json d)
        ≡ record { file = slot_bytes json d; meta = d; valid = true }
  unfolding open_item
  open_item-slot_bytes back =
      rw
        (
          covered,
          sum_field,
          from_le-le_bytes 4 (crc32 body) (crc32-lt body),
          text,
          back (from_le (take (12 - 4) body)),
        )
        (ground (arith, long_enough))
