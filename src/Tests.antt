-- ===== src/Tests.antt =====
-- Concrete inputs, runs of the code on them, and the theorems applied to them.
mod Samples
mod Selection
mod Registered
mod Boundary
mod Documents
mod Models
mod Reading
mod Blocks
mod Structure
mod Splits
