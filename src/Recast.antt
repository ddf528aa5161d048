-- ===== src/Recast.antt =====
-- server/recceiver/recast.py: the TCP server that the clients upload to.
pub mod Transaction
pub mod Session
pub mod Receiver
pub mod Factory
