-- ===== src/Loader.antt =====
-- src/utils/custom_loader.c: the object file of the assembler, read back into the memory.
pub mod Custom
pub mod Elf
pub mod Listing
pub mod Object
mod Tests
