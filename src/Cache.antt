-- ===== src/Cache.antt =====
-- The cache hierarchy of src/cache/.
pub mod State
pub mod Block
pub mod Ways
pub mod Shape
pub mod Inside
pub mod Fill
pub mod Victim
pub mod Placed
pub mod Evict
pub mod Access
pub mod Tests
