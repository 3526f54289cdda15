-- ===== src/Dwarf/Line/Header.antt =====
-- dwarf/line.cc: the constructor of `line_table`, which reads the header.
pub mod Valid
pub mod Total
use libelfin.Prelude.{
  ℕ, zero, suc, ◌+◌, ◌-◌, ◌%◌, Bool, true, false, not, ◌||◌, ◌&&◌, Option, none, some, List, [],
  ◌∷◌, ◌++◌, ltb, leb, ◌==◌, if◌then◌else◌, get_elem?,
}
use libelfin.Result.{
  Result, ok, err, undefined, out_of_fuel, format_error, bad_line_version, zero_maximum_operations,
  zero_line_range, bad_opcode_length, guard, ◌>>=◌, ◌>>◌,
}
use libelfin.Word.{add64}
use libelfin.Dwarf.Section.{Section}
use libelfin.Dwarf.Cursor
use libelfin.Dwarf.Cursor.{
  Cursor, cursor_at, get_section_offset, subsection, skip_initial_length, offset, fixed,
  fixed_signed,
}
use libelfin.Dwarf.Line.{
  FileEntry, Table, starts_with_slash, ends_with_slash, is_empty, read_file_entry,
}

-- `opcode_lengths`
abbrev pub opcode_lengths : List ℕ
opcode_lengths = 0 ∷ 0 ∷ 1 ∷ 1 ∷ 1 ∷ 1 ∷ 0 ∷ 0 ∷ 0 ∷ 1 ∷ 0 ∷ 0 ∷ 1 ∷ []

-- A read past the end of the array is undefined.
abbrev pub expected_length : Option ℕ → Result ℕ
expected_length none = err undefined
expected_length (some n) = ok n

-- `for (unsigned i = 1; i < m->opcode_base; i++)`, with the rounds left.
unfoldable pub read_opcode_lengths : ℕ → ℕ → Cursor → Result (List ℕ × Cursor)
read_opcode_lengths zero i c = ok ([], c)
read_opcode_lengths (suc n) i c = do
  (length, c1) ← fixed 1 c
  expected ← expected_length (get_elem? opcode_lengths i)
  guard (length == expected) (format_error (bad_opcode_length i))
  (lengths, c2) ← read_opcode_lengths n (i + 1) c1
  ok (length ∷ lengths, c2)

-- `resize(opcode_base)` and `standard_opcode_lengths[0] = 0`, outside the vector at opcode_base 0.
unfoldable pub read_lengths_table : ℕ → Cursor → Result (List ℕ × Cursor)
read_lengths_table zero c = err undefined
read_lengths_table (suc n) c = do (lengths, c1) ← read_opcode_lengths n 1 c; ok (0 ∷ lengths, c1)

abbrev pub with_slash : List ℕ → List ℕ
with_slash dir = if ends_with_slash dir then dir else dir ++ (b'/' ∷ [])

-- `comp_dir`: the directory with its slash, if there is one.
abbrev pub comp_dir_of : List ℕ → List ℕ
comp_dir_of dir = if is_empty dir then dir else with_slash dir

abbrev pub absolute : List ℕ → List ℕ → List ℕ
absolute comp_dir path = if starts_with_slash path then path else comp_dir ++ path

-- The loop over the include directories.
unfoldable pub read_directories : ℕ → List ℕ → Cursor → Result (List (List ℕ) × Cursor)
read_directories zero comp_dir c = err out_of_fuel
read_directories (suc fuel) comp_dir c = do
  (incdir, c1) ← Cursor.string c
  let further = do
    (dirs, c2) ← read_directories fuel comp_dir c1
    ok (absolute comp_dir (with_slash incdir) ∷ dirs, c2)
  if is_empty incdir then ok ([], c1) else further

-- `while (m->read_file_entry(&cur, true));`
unfoldable pub read_files : ℕ → Table → Cursor → Result (Table × Cursor)
read_files zero t c = err out_of_fuel
read_files (suc fuel) t c = do
  (more, t', c') ← read_file_entry t true c
  let further = read_files fuel t' c'
  if more then further else ok (t', c')

-- `maximum_operations_per_instruction`, which versions before 4 do not have.
abbrev pub read_maximum_operations : ℕ → Cursor → Result (ℕ × Cursor)
read_maximum_operations version c = if leb 4 version then fixed 1 c else ok (1, c)

-- From the version on, with the cursor behind the initial length.
unfoldable pub read_header : ℕ → List ℕ → List ℕ → Cursor → Result Table
read_header fuel comp_dir cu_name c = do
  (version, c1) ← fixed 2 c
  guard (not (ltb version 2 || ltb 4 version)) (format_error (bad_line_version version))
  (header_length, c2) ← offset c1
  (minimum_length, c3) ← fixed 1 c2
  (maximum_operations, c4) ← read_maximum_operations version c3
  guard (ltb 0 maximum_operations) (format_error zero_maximum_operations)
  (is_stmt, c5) ← fixed 1 c4
  (line_base, c6) ← fixed_signed 1 c5
  (line_range, c7) ← fixed 1 c6
  guard (ltb 0 line_range) (format_error zero_line_range)
  (opcode_base, c8) ← fixed 1 c7
  (lengths, c9) ← read_lengths_table opcode_base c8
  (dirs, c10) ← read_directories fuel comp_dir c9
  (t, c11) ←
      read_files fuel
        (record {
          sec = c.sec;
          program_offset = add64 (get_section_offset c2) header_length;
          minimum_instruction_length = minimum_length;
          maximum_operations = maximum_operations;
          default_is_stmt = ltb 0 is_stmt;
          line_base = line_base;
          line_range = line_range;
          opcode_base = opcode_base;
          standard_opcode_lengths = lengths;
          include_directories = comp_dir ∷ dirs;
          file_names = record { path = absolute comp_dir cu_name; mtime = 0; length = 0 } ∷ [];
          last_file_name_end = 0;
          file_names_complete = false;
        })
        c10
  ok t

-- `line_table(sec, offset, cu_addr_size, cu_comp_dir, cu_name)`
unfoldable pub line_table : ℕ → Section → ℕ → ℕ → List ℕ → List ℕ → Result Table
line_table fuel s at_offset cu_addr_size cu_comp_dir cu_name = do
  (sub, _) ← subsection (cursor_at s at_offset)
  c ← skip_initial_length (cursor_at (record sub { addr_size = cu_addr_size }) 0)
  read_header fuel (comp_dir_of cu_comp_dir) cu_name c
