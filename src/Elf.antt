-- ===== src/Elf.antt =====
-- The ELF reader (elf/).
pub mod Hex
pub mod Order
pub mod Header
pub mod Strtab
pub mod File
pub mod Symtab
