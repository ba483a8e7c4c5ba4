-- ===== src/Gzip.antt =====
-- The compression of src/zdex/src/Gzip.cpp.
pub mod Bits
pub mod Blocks
pub mod Codes
pub mod Crc
pub mod Deflate
pub mod Dynamic
pub mod Huffman
pub mod Inflate
mod Tests
pub mod Member
