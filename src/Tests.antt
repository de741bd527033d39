-- ===== src/Tests.antt =====
-- Runs of the definitions on small types, and the theorems at concrete inputs.
pub mod Sample
mod FieldTests
mod EngineTests
mod ContextTests
mod ResolveTests
mod InspectTests
pub mod Memory
mod ExecuteTests
mod CopyTests
mod EntryTests
mod GeneratorTests
mod GentestTests
mod CopierTests
