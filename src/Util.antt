-- ===== src/Util.antt =====
-- The utilities of util/: byte order, the two integer codes, the growing byte array, streams and text.
pub mod Endian
pub mod ZigZag
pub mod Varint
pub mod ByteArray
pub mod Text
pub mod Stream
mod Tests
