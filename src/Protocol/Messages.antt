-- ===== src/Protocol/Messages.antt =====
-- server/recceiver/protocol/messages.py: one child for each message class.
pub mod Base
pub mod Header
pub mod Fixed
pub mod AddRecord
pub mod AddInfo
