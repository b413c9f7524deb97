-- ===== src/Messages.antt =====
-- src/messages.rs and its modules: the messages that peers exchange, and their wire format.
pub mod Types
pub mod Tags
pub mod Items
pub mod Encode
pub mod Decode
pub mod RoundTrip
pub mod Stream
