-- ===== src/Tests/Lines.antt =====
-- A line table of two rows and the end of their sequence.
use libelfin.Prelude.{ℕ, ◌≡◌, refl, some, true, false, List, [], ◌∷◌, arith}
use libelfin.Result.{ok, err, out_of_fuel, Ends}
use libelfin.Dwarf.Section.{lsb, size}
use libelfin.Dwarf.Cursor.{
  fixed, fixed_lsb, ensure, read_byte, address, uleb128, uleb128_loop, scan_string, cstr, string,
}
use libelfin.Dwarf.Cursor.Image.{InImage}
use libelfin.Dwarf.Line.{Row, Table, FileEntry, reset, read_file_entry, read_file_attributes}
use libelfin.Dwarf.Line.Files.{read_file_entry_again}
use libelfin.Dwarf.Line.Header.{read_header}
use libelfin.Dwarf.Line.Header.Total.{read_header-Ends}
use libelfin.Dwarf.Line.Program.{
  State, step, step_special, step_standard, step_extended, step_extension, advance_ops, after_row,
}
use libelfin.Dwarf.Line.Program.Ready.{IsReady}
use libelfin.Dwarf.Line.Program.Special.{IsHeader, step-special_row}
use libelfin.Dwarf.Line.Iterator.{
  LineIterator, run_steps, next_row, iterator_at, begin_rows, end_rows, find_from, find_address,
  visit_rows, get_file,
}
use libelfin.Dwarf.Line.Iterator.Search.{find_address-Ends}
use libelfin.Dwarf.Line.Iterator.Found.{Answers, find_address-Answers}
use libelfin.Dwarf.Line.Iterator.Overrun.{visit_rows_runs_on}
use libelfin.Tests.Data.{section_of, cursor_in}

-- set_address 0x1000; special 20; special 75; advance_pc 4; end_sequence
abbrev program : List ℕ
program = 0 ∷ 5 ∷ 2 ∷ 0x00 ∷ 0x10 ∷ 0 ∷ 0 ∷ 20 ∷ 75 ∷ 2 ∷ 4 ∷ 0 ∷ 1 ∷ 1 ∷ []

abbrev standard_lengths : List ℕ
standard_lengths = 0 ∷ 0 ∷ 1 ∷ 1 ∷ 1 ∷ 1 ∷ 0 ∷ 0 ∷ 0 ∷ 1 ∷ 0 ∷ 0 ∷ 1 ∷ []

abbrev file_at : List ℕ → FileEntry
file_at path = record { path = path; mtime = 0; length = 0 }

-- line_base -5, line_range 14, opcode_base 13
abbrev table_at : List ℕ → ℕ → Table
table_at bytes start = record {
  sec = section_of lsb bytes;
  program_offset = start;
  minimum_instruction_length = 1;
  maximum_operations = 1;
  default_is_stmt = true;
  line_base = 0xffff_ffff_ffff_fffb;
  line_range = 14;
  opcode_base = 13;
  standard_opcode_lengths = standard_lengths;
  include_directories = [] ∷ [];
  file_names = file_at (b'a' ∷ []) ∷ file_at (b'b' ∷ []) ∷ [];
  last_file_name_end = 0;
  file_names_complete = false;
}

abbrev table : Table
table = table_at program 0

abbrev row_at : ℕ → ℕ → Row
row_at address line = record (reset true) { address = address; line = line }

abbrev first : LineIterator
unfolding reset
first = record {
  pos = 8;
  entry = record (row_at 0x1000 3) { file = some 1 };
  regs = row_at 0x1000 3;
}

abbrev last : LineIterator
last = record { pos = 14; entry = reset true; regs = reset true }

begins : begin_rows 20 table ≡ ok (first, table)
unfolding begin_rows iterator_at next_row run_steps step fixed ensure fixed_lsb read_byte
    step_extended uleb128 uleb128_loop step_extension address step_special advance_ops after_row
    reset
begins = refl

ends : end_rows 20 table ≡ ok (last, table)
unfolding end_rows iterator_at next_row run_steps size
ends = refl

finds : find_address 20 20 table 0x1002 ≡ ok (first, table)
unfolding find_address find_from begin_rows end_rows size iterator_at next_row run_steps step fixed
    ensure fixed_lsb read_byte step_extended uleb128 uleb128_loop step_extension address
    step_special advance_ops after_row reset
finds = refl

find_address-Answers_example : Answers 20 0x1002 last (first, table)
find_address-Answers_example =
    find_address-Answers 20 20 table table table 0x1002 first last (first, table) begins ends finds

-- The second row holds [0x1004, 0x1008), and is not found.
misses : find_address 20 20 table 0x1006 ≡ ok (last, record table { file_names_complete = true })
unfolding find_address find_from begin_rows end_rows size iterator_at next_row run_steps step fixed
    ensure fixed_lsb read_byte step_extended uleb128 uleb128_loop step_extension step_standard
    address step_special advance_ops after_row reset
misses = refl

program-InImage : InImage (section_of lsb program)
program-InImage = omega arith

find_address-Ends_example : Ends (find_address 15 15 table 0x1006) × Ends (get_file 15 15 table 9)
find_address-Ends_example =
    find_address-Ends (section_of lsb program) table 15 15 0x1006 9 program-InImage
      (refl, omega arith, omega arith) (omega arith) (omega arith)

visit_rows_runs_on_example : visit_rows 1000 15 (table_at program 100) ≡ err out_of_fuel
visit_rows_runs_on_example =
    visit_rows_runs_on 1000 14 (table_at program 100) (omega arith) (omega arith) (omega arith)

-- The state before the first special opcode.
abbrev before_special : State
before_special = record {
  table = table;
  entry = reset true;
  regs = row_at 0x1000 1;
  cur = cursor_in lsb program 7;
}

before-IsReady : IsReady before_special
unfolding reset
before-IsReady = record {
  operations = omega arith;
  regs = omega arith;
  entry = omega arith;
  image = program-InImage;
  here = omega arith;
}

table-IsHeader : IsHeader table
table-IsHeader = omega arith

reads_special : fixed 1 (cursor_in lsb program 7) ≡ ok (20, cursor_in lsb program 8)
unfolding fixed ensure fixed_lsb read_byte
reads_special = refl

abbrev after_special : State
after_special = record before_special {
  entry = row_at 0x1000 3;
  regs = row_at 0x1000 3;
  cur = cursor_in lsb program 8;
}

step-special_row_example : step before_special ≡ ok (after_special, true)
unfolding reset after_row
step-special_row_example =
    step-special_row before_special 7 0 (cursor_in lsb program 8) before-IsReady table-IsHeader
      (omega arith) reads_special

-- A file entry: the name, and three numbers.
abbrev file_bytes : List ℕ
file_bytes = b'c' ∷ 0 ∷ 0 ∷ 7 ∷ 9 ∷ []

abbrev with_file : Table
with_file = record (table_at file_bytes 0) {
  file_names =
      file_at (b'a' ∷ [])
      ∷ file_at (b'b' ∷ [])
      ∷ record { path = b'c' ∷ []; mtime = 7; length = 9 }
      ∷ [];
  last_file_name_end = 5;
}

reads_file :
    read_file_entry (table_at file_bytes 0) false (cursor_in lsb file_bytes 0)
    ≡ ok (true, with_file, cursor_in lsb file_bytes 5)
unfolding read_file_entry read_file_attributes string cstr scan_string uleb128 uleb128_loop
    read_byte
reads_file = refl

read_file_entry_again_example :
    read_file_entry with_file false (cursor_in lsb file_bytes 0)
    ≡ ok (true, with_file, cursor_in lsb file_bytes 5)
read_file_entry_again_example =
    read_file_entry_again (table_at file_bytes 0) with_file with_file false true
      (cursor_in lsb file_bytes 0) (cursor_in lsb file_bytes 5) reads_file (omega arith)

-- A header of version 2 without directories, with the file `b`.
abbrev header : List ℕ
header =
    2 ∷ 0 ∷ 24 ∷ 0 ∷ 0 ∷ 0 ∷ 1 ∷ 1 ∷ 0xfb ∷ 14 ∷ 13 ∷ 0 ∷ 1 ∷ 1 ∷ 1 ∷ 1 ∷ 0 ∷ 0 ∷ 0 ∷ 1 ∷ 0 ∷ 0 ∷ 1
    ∷ 0 ∷ b'b' ∷ 0 ∷ 0 ∷ 0 ∷ 0 ∷ 0 ∷ []

abbrev header_table : Table
header_table = record (table_at header 30) { last_file_name_end = 29 }

header-InImage : InImage (section_of lsb header)
header-InImage = omega arith

read_header-Ends_example : Ends (read_header 31 [] (b'a' ∷ []) (cursor_in lsb header 0))
read_header-Ends_example =
    read_header-Ends 31 [] (b'a' ∷ []) (cursor_in lsb header 0) header-InImage (omega arith)
      (omega arith)
