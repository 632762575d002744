-- ===== src/Telnet.antt =====
-- telnet/stream.go: the Telnet protocol under a terminal session.
pub mod Stream
pub mod Protocol
mod Actions
pub mod Negotiation
pub mod Delivery
pub mod Writing
pub mod Connector
mod Tests
