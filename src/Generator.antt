-- ===== src/Generator.antt =====
-- cmd/fastcopier-gen: the command that writes copiers for the struct types of a package.
pub mod Universe
pub mod Matching
pub mod Kinds
pub mod Lines
pub mod Code
pub mod Source
pub mod Command
