-- ===== src/DynProg.antt =====
-- The `PostgresDynProg` enumerator of postbound/opt/_dynprog.py.
pub mod Sorting
pub mod Paths
pub mod Search
pub mod Create
pub mod MergePaths
pub mod JoinPaths
pub mod ScanPaths
pub mod Enumerate
pub mod Execution
mod Examples
