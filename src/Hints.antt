-- ===== src/Hints.antt =====
-- postbound/_hints.py: operator assignments, plan parameters and join trees.
pub mod Operators
pub mod Parameters
pub mod Assignment
pub mod JoinTree
pub mod Extract
mod Examples
