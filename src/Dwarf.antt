-- ===== src/Dwarf.antt =====
-- The DWARF reader (dwarf/).
pub mod Section
pub mod Cursor
pub mod Form
pub mod Skip
pub mod Op
pub mod Alu
pub mod Machine
pub mod Expr
pub mod Ranges
pub mod Line
pub mod Attribute
pub mod Abbrev
pub mod Units
pub mod Pubnames
pub mod File
pub mod Value
pub mod Die
pub mod DieStrMap
pub mod SmallVector
pub mod Names
pub mod ElfLoader
pub mod Attrs
