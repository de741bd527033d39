-- ===== src/Gentest.antt =====
-- internal/gentest: the struct types that the generator is tried on, and the copiers it makes.
pub mod Declared
pub mod Copiers
