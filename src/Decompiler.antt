-- ===== src/Decompiler.antt =====
-- crates/flutterdec-decompiler: the graph of blocks that structuring works on.
pub mod Regions
pub mod Dominance
pub mod Loops
pub mod Irreducible
pub mod Build
pub mod FromIr
