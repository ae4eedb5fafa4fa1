-- ===== src/Codec3.antt =====
-- The codecs of v3/codec.h, on the same `RingBuffer`: packets with a length, and lines.
pub mod LengthPrefixed
pub mod LineBased
pub mod Equal
pub mod Lines
pub mod Tests
