-- ===== src/Tests/Array.antt =====
-- The MemTable and an SSTable on two records.
use db.Prelude.{◌≡◌, arith}
use db.Bytes.Order.{cmp}
use db.Bytes.Endian.{be_bytes, cmp-be_bytes}
use db.Prelude.{compare}

cmp-be_bytes_example : cmp (be_bytes 2 255) (be_bytes 2 256) ≡ compare 255 256
cmp-be_bytes_example = cmp-be_bytes 2 255 256 (omega arith) (omega arith)
