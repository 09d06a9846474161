-- ===== src/Gfx.antt =====
-- crates/drift-gfx: the client of the RDPGFX graphics channel.
pub mod State
pub mod Ack
pub mod Pdu
pub mod Sink
pub mod Client
pub mod Codecs
pub mod Monad
pub mod Handler
pub mod Payload
pub mod Contract
mod Samples
