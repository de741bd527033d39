-- ===== src/Reflect.antt =====
-- reflect.Value as the copier uses it: handles on variables, and the operations that read and write
-- through them. An operation that reflect refuses is a panic. No line of the repository is
-- translated here: these are the documented effects of package reflect.
pub mod Machine
pub mod Access
pub mod Containers
unfoldable pub use Machine.*
unfoldable pub use Access.*
unfoldable pub use Containers.*
