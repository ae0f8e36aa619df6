-- ===== src/Control.antt =====
-- The control packets of stsync-proxy/src/srt/proto.rs, with their builders
-- (stsync-proxy/src/srt/proto/builder.rs) and the code that `#[derive(Packet)]`
-- (streamsync-macros/src/packet.rs) generates for them: the body is the fields after the header, in
-- order; `downcast` checks the header, decodes the body and drops what is left of it.
pub mod Numbers
pub mod Casts
mod Tests
