-- ===== src/Tests/Data.antt =====
-- Sections over short images.
use libelfin.Prelude.{ℕ, List, length}
use libelfin.Result.{ok, err, expr_error, not_implemented}
use libelfin.Dwarf.Section.{Section, SectionType, ByteOrder, Format}
use libelfin.Dwarf.Cursor.{Cursor}
use libelfin.Dwarf.Machine.{Context, Machine, LocationType}
use libelfin.Prelude.{none}

-- The whole image as a section of 32-bit DWARF.
abbrev pub section_of : ByteOrder → List ℕ → Section
section_of o bytes = record {
  type = SectionType.info;
  mem = bytes;
  begin = 0;
  end = length bytes;
  fmt = Format.dwarf32;
  ord = o;
  addr_size = 4;
}

abbrev pub cursor_in : ByteOrder → List ℕ → ℕ → Cursor
cursor_in o bytes p = record { sec = section_of o bytes; pos = p }

-- `no_expr_context`, and a context whose registers hold their numbers.
abbrev pub registers : Context
registers = record {
  reg = λ r. ok r;
  deref_size = λ a n. err (expr_error (not_implemented 0x94));
  xderef_size = λ a b n. err (expr_error (not_implemented 0x95));
  form_tls_address = λ a. err (expr_error (not_implemented 0x9b));
}

abbrev pub machine_in : ByteOrder → List ℕ → List ℕ → Machine
machine_in o bytes stack = record {
  cur = cursor_in o bytes 0;
  stack = stack;
  room = 8;
  result = record {
    location_type = LocationType.address_;
    value = none;
    implicit = none;
    implicit_len = none;
  };
}
