-- ===== src/Poe.antt =====
-- x/poe: the proof-of-engagement module.
pub mod History
pub mod Valset
pub mod Fees
pub mod Registry
pub mod Engagement
pub mod Unbonding
pub mod Messages
pub mod Contract
pub mod Adapter
pub mod Genesis
pub mod Bootstrap
pub mod Server
pub mod Plugin
pub mod Queries
mod Tests
