-- ===== src/Resolution.antt =====
-- What plan resolution guarantees: resolvePlan of engine.go and the init methods it calls.
pub mod Calm
pub mod Safe
pub mod Parts
pub mod StructParts
pub mod MapParts
pub mod Guarantees
pub mod Recursive
pub mod Again
