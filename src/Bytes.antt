-- ===== src/Bytes.antt =====
-- What the program uses of Go's standard library on byte slices: bytes.Compare, encoding/binary,
-- hash/crc32, slicing and io.ReadFull.
pub mod Order
pub mod Endian
pub mod Crc
pub mod Reader
pub mod File
pub mod Bits
