-- ===== src/Execute.antt =====
-- The Copy methods of the plans: plans.go and the plan_*.go files, over a heap.
pub mod Pointers
pub mod Slices
pub mod Structs
pub mod Maps
pub mod Dispatch
unfoldable pub use Pointers.*
unfoldable pub use Slices.*
unfoldable pub use Structs.*
unfoldable pub use Maps.*
unfoldable pub use Dispatch.*
