-- ===== src/Programs.antt =====
-- The C programs of programs/c that the simulator is run on.
pub mod Agreement
pub mod Array
pub mod QuickSort
pub mod RadixSort
pub mod Reindex
pub mod Sums
mod Tests
