-- ===== src/Cf.antt =====
-- The ChannelFinder processor, server/recceiver/cf.
pub mod PropertyName
pub mod Property
pub mod Channel
pub mod Model
pub mod Config
pub mod Registry
pub mod Records
pub mod Adapter
pub mod Push
pub mod Classify
pub mod Update
pub mod Commit
pub mod Clean
pub mod Setup
pub mod Service
