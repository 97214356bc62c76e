-- ===== src/Subscriber.antt =====
-- The package subscriber: what it decodes from the chain, and how it follows the chain.
pub mod Types
pub mod Decoder
pub mod Delay
pub mod Receive
pub mod Connection
