-- ===== src/Util/ByteArray.antt =====
-- The class ByteArray of util/serializer.h and util/serializer.cpp. `Defs` holds the state and the
-- operations on raw bytes; the other modules hold the typed reads and writes and the proofs.
pub mod Defs
pub mod Access
pub mod Cells
pub mod Invariant
pub mod Writing
pub mod Growth
pub mod Write
pub mod Reading
pub mod Seek
pub mod RoundTrip
pub mod Typed
pub mod Codec
pub mod Words
pub mod Groups
pub mod Messages
pub mod Buffers
