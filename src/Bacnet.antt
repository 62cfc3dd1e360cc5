-- ===== src/Bacnet.antt =====
-- internal/bacnet: the BACnet/IP wire protocol and its client.
pub mod Tag
pub mod Primitive
pub mod Value
pub mod Errors
pub mod Objects
pub mod Packet
pub mod Services
