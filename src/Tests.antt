-- ===== src/Tests.antt =====
-- Concrete runs of the model, and the theorems at concrete inputs.
mod Data
mod Reads
mod RangeLists
mod Exprs
mod Lines
mod Abbrevs
mod Files
mod Dies
mod Indexes
mod Vectors
mod Elfs
