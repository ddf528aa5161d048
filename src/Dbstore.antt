-- ===== src/Dbstore.antt =====
-- `DBProcessor` of server/recceiver/dbstore.py.
pub mod Settings
pub mod Statement
pub mod Commit
pub mod Waiting
