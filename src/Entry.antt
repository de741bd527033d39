-- ===== src/Entry.antt =====
-- The functions that users call, over the state of the process: fastcopier.go and register.go.
pub mod Arguments
pub mod State
pub mod Calls
pub mod Tidy
pub mod Pools
pub mod FlatCopies
pub mod FlatClones
pub mod Merging
pub mod Registered
pub mod Checks
unfoldable pub use Arguments.*
unfoldable pub use State.*
unfoldable pub use Calls.*
