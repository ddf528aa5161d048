-- ===== src/Protocol.antt =====
-- server/recceiver/protocol: the wire formats.
pub mod Struct
pub mod Utf8
pub mod Messages
pub mod Announce
