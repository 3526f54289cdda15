-- ===== src/Dwarf/Units.antt =====
-- dwarf/dwarf.cc: `unit::impl`, and the headers of compilation units and type units.
pub mod Extent
use libelfin.Prelude.{ℕ, ◌≡◌, List, [], ◌∷◌, leb, ◌==◌, if◌then◌else◌}
use libelfin.Result.{
  Result, ok, err, format_error, unknown_unit_version, unknown_type_unit_version, guard, ◌>>=◌,
  ◌>>◌,
}
use libelfin.Dwarf.Section.{Section}
use libelfin.Dwarf.Cursor.{
  Cursor, cursor_at, get_section_offset, fixed, offset, subsection, skip_initial_length,
  skip_unit_type,
}

-- `unit::impl`, without what it keeps of later requests: the abbreviations, the root, the line
-- table.
pub record UnitImpl : Type 0 where
  pub offset : ℕ
  pub subsec : Section
  pub debug_abbrev_offset : ℕ
  pub root_offset : ℕ
  pub type_signature : ℕ
  pub type_offset : ℕ

-- The size of addresses and the offset of the abbreviations: version 5 changed their order.
unfoldable pub read_layout : ℕ → Cursor → Result (ℕ × ℕ × Cursor)
read_layout version sub =
    if leb 5 version
    then (do
      (address_size, sub1) ← fixed 1 (skip_unit_type sub)
      (debug_abbrev_offset, sub2) ← offset sub1
      ok (address_size, debug_abbrev_offset, sub2))
    else (do
      (debug_abbrev_offset, sub1) ← offset sub
      (address_size, sub2) ← fixed 1 sub1
      ok (address_size, debug_abbrev_offset, sub2))

-- `compilation_unit(file, offset)`, on the section `.debug_info` of the file.
unfoldable pub compilation_unit : Section → ℕ → Result UnitImpl
compilation_unit info off = do
  (subsec, cur) ← subsection (cursor_at info off)
  sub ← skip_initial_length (cursor_at subsec 0)
  (version, sub1) ← fixed 2 sub
  guard (leb version 5) (format_error (unknown_unit_version version))
  (address_size, debug_abbrev_offset, sub2) ← read_layout version sub1
  ok (record {
    offset = off;
    subsec = record subsec { addr_size = address_size };
    debug_abbrev_offset = debug_abbrev_offset;
    root_offset = get_section_offset sub2;
    type_signature = 0;
    type_offset = 0;
  })

-- `type_unit(file, offset)`, on the section `.debug_types` of the file.
unfoldable pub type_unit : Section → ℕ → Result UnitImpl
type_unit types off = do
  (subsec, cur) ← subsection (cursor_at types off)
  sub ← skip_initial_length (cursor_at subsec 0)
  (version, sub1) ← fixed 2 sub
  guard (version == 4) (format_error (unknown_type_unit_version version))
  (debug_abbrev_offset, sub2) ← offset sub1
  (address_size, sub3) ← fixed 1 sub2
  (type_signature, sub4) ← fixed 8 sub3
  (type_offset, sub5) ← offset sub4
  ok (record {
    offset = off;
    subsec = record subsec { addr_size = address_size };
    debug_abbrev_offset = debug_abbrev_offset;
    root_offset = get_section_offset sub5;
    type_signature = type_signature;
    type_offset = type_offset;
  })
