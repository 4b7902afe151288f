-- ===== src/Runtime.antt =====
-- essentials/stdlib: the software arithmetic that gcc calls on a core without the M extension. A
-- uint32_t is a number below 2 ^ 32, an int32_t its pattern; negation wraps, as on the core.
pub mod Division
pub mod Table
pub mod Product
pub mod Signed
pub mod Heap
mod Tests
