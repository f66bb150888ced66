-- ===== src/Util.antt =====
-- postbound/util: queues and version numbers.
pub mod Queue
pub mod SizedQueue
pub mod Versions
mod Examples
