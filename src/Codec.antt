-- ===== src/Codec.antt =====
-- go-daemon/pkg/codec/codec.go: the compact binary form of a message.
pub mod Varint
pub mod Zigzag
pub mod Uvarint
pub mod Strings
pub mod Lengths
pub mod Marshal
pub mod Unmarshal
pub mod Flags
pub mod RoundTrip
pub mod EmptyPayload
pub mod Frames
mod Tests
