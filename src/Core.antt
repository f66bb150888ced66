-- ===== src/Core.antt =====
-- postbound/_core.py: physical operators, table references and cardinalities.
pub mod Operators
pub mod Table
pub mod Cardinality
mod Examples
