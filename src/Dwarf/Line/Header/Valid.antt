-- ===== src/Dwarf/Line/Header/Valid.antt =====
-- dwarf/line.cc: the tables that the constructor of `line_table` makes.
use libelfin.Prelude.{ℕ, ◌+◌, ◌≤◌, ◌<◌, ◌≡◌, List, take, drop}
use libelfin.Dwarf.Section.{Section}
use libelfin.Dwarf.Cursor.{Cursor}
use libelfin.Dwarf.Line.{Table}
use libelfin.Dwarf.Line.Header.{opcode_lengths}
use libelfin.Dwarf.Line.Program.Special.{IsHeader}

-- The lengths read are those of the table from `i` on.
Expected : ℕ → ℕ → List ℕ × Cursor → Type 0
Expected n i r = (r.0 ≡ take n (drop i opcode_lengths)) × (i + n ≤ 13)

-- What the header of a table that was made has.
pub record Made (s : Section) (t : Table) : Type 0 where
  pub header : IsHeader t
  pub sec : t.sec ≡ s
  pub operations : 0 < t.maximum_operations
  pub lengths : t.standard_opcode_lengths ≡ take t.opcode_base opcode_lengths
  pub opcode_base : (1 ≤ t.opcode_base) × (t.opcode_base ≤ 13)
