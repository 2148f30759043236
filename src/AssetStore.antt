-- ===== src/AssetStore.antt =====
-- src/assetstore.c, the store of assets that a server or client has, or is getting, in memory.
pub mod State
pub mod Prune
pub mod Access
pub mod Plain
pub mod Samples
mod Examples
