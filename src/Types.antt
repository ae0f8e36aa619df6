-- ===== src/Types.antt =====
-- The tags of the wire format, from stsync-proxy/src/srt/mod.rs.
pub mod ControlType
pub mod HandshakeType
pub mod Encryption
pub mod ExtensionType
pub mod Flags
