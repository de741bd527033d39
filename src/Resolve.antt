-- ===== src/Resolve.antt =====
-- How a plan is chosen and built for a pair of types: resolvePlan of engine.go and the init
-- methods of the plan_*.go files. The context is read only here, and its cache is the state.
mod Monad
mod Basics
mod StructInit
mod MapInit
mod Dispatch
pub use Monad.*
unfoldable pub use Basics.*
unfoldable pub use StructInit.*
unfoldable pub use MapInit.*
unfoldable pub use Dispatch.*
