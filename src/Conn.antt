-- ===== src/Conn.antt =====
-- stsync-proxy/src/srt/conn.rs: the connection of one peer.
pub mod LossList
pub mod Rtt
pub mod Queue
pub mod Metrics
pub mod State
pub mod Receive
pub mod Transmit
pub mod Handlers
pub mod Output
pub mod Shared
pub mod Handshake
pub mod Dispatch
pub mod Polls
pub mod Modes
pub mod Relay
pub mod Closing
mod Tests
