-- ===== src/Loader.antt =====
-- crates/flutterdec-loader: what the host knows of a loaded snapshot.
pub mod Identity
pub mod Registry
pub mod Equality
