-- ===== src/Adapter.antt =====
-- crates/flutterdec-adapter: the contract between the host and an adapter.
pub mod Primitives
pub mod Model
pub mod Protocol
pub mod Validate
