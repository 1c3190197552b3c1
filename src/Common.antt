-- ===== src/Common.antt =====
-- The code that client and server share: common/.
pub mod Protocol
pub mod Decimal
pub mod Run
pub mod Hash
pub mod Socket
pub mod Message
pub mod MessageType
