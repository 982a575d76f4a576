-- ===== src/Cache.antt =====
-- src/bdfsclient-lib/Cache.cpp: blocks of a volume kept in local files, one file for each row.
pub mod Files
pub mod Steps
pub mod Cells
pub mod Blocks
pub mod Coherence
pub mod Writeback
pub mod Flushes
pub mod Evictions
pub mod Fetches
pub mod Requests
pub mod Answers
pub mod Success
pub mod Backing
pub mod Durability
