-- ===== src/FairyWren.antt =====
-- `FairyWrenCache`, fairywren_cache.h and fairywren_cache.cpp: a log of the host's blocks in
-- segments of three regions. A block moves from the first region to the second and from there to
-- the third, where it is evicted.
mod Tests
pub mod Log
pub mod Index
pub mod Places
pub mod Invariant
pub mod Lists
pub mod Victims
pub mod Cache
pub mod Collect
pub mod Blocks
pub mod Relocation
pub mod Safe
pub mod Drop
pub mod Copy
pub mod Reclaim
pub mod Ensure
pub mod Find
pub mod Invalidate
pub mod Refusal
pub mod Append
pub mod Collections
pub mod Batch
pub mod Init
pub mod Fresh
pub mod Host
