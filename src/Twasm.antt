-- ===== src/Twasm.antt =====
-- x/twasm: contracts with privileges.
pub mod Privilege
pub mod Details
pub mod Keeper
pub mod Messages
pub mod Handler
pub mod Callbacks
pub mod Abci
pub mod Proposals
pub mod Genesis
mod Tests
