-- ===== src/Dwarf/Pubnames.antt =====
-- dwarf/internal.hh: the units of .debug_pubnames and .debug_pubtypes, and their entries.
use libelfin.Prelude.{ℕ, List, ◌==◌}
use libelfin.Result.{Result, ok, format_error, unknown_name_unit_version, guard, ◌>>=◌, ◌>>◌}
use libelfin.Dwarf.Cursor
use libelfin.Dwarf.Cursor.{Cursor, cursor_at, fixed, offset, subsection, skip_initial_length}

-- `name_unit`: `entries` is a cursor in the section of the unit.
pub record NameUnit : Type 0 where
  pub version : ℕ
  pub debug_info_offset : ℕ
  pub debug_info_length : ℕ
  pub entries : Cursor

-- `name_unit::read`, which also moves the cursor past the unit.
abbrev pub read_name_unit : Cursor → Result (NameUnit × Cursor)
read_name_unit cur = do
  (subsec, cur') ← subsection cur
  sub ← skip_initial_length (cursor_at subsec 0)
  (version, sub1) ← fixed 2 sub
  guard (version == 2) (format_error (unknown_name_unit_version version))
  (debug_info_offset, sub2) ← offset sub1
  (debug_info_length, sub3) ← offset sub2
  ok (
    record {
      version = version;
      debug_info_offset = debug_info_offset;
      debug_info_length = debug_info_length;
      entries = sub3;
    },
    cur',
  )

pub record NameEntry : Type 0 where
  pub offset : ℕ
  pub name : List ℕ

-- `name_entry::read`
abbrev pub read_name_entry : Cursor → Result (NameEntry × Cursor)
read_name_entry cur = do
  (off, cur1) ← offset cur
  (name, cur2) ← Cursor.string cur1
  ok (record { offset = off; name = name }, cur2)
