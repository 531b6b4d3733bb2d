-- ===== src/Ir.antt =====
-- crates/flutterdec-ir/src/lib.rs and the disassembly records that it reads: from the instructions of
-- a function to its basic blocks.
pub mod Targets
pub mod Instructions
pub mod Splitting
pub mod Numbering
pub mod Keeping
pub mod Dropping
pub mod Partition
pub mod Collecting
pub mod Coverage
pub mod Terminators
pub mod Functions
