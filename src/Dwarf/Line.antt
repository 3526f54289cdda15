-- ===== src/Dwarf/Line.antt =====
-- dwarf/line.cc: the line table's data, its rows and its file entries. A text is the list of its
-- bytes; a pointer to a file is its index in the table.
pub mod Header
pub mod Files
pub mod Program
pub mod Iterator
use libelfin.Prelude.{
  ℕ, zero, suc, ◌+◌, ◌%◌, Bool, true, false, ◌&&◌, Option, none, some, List, [], ◌∷◌, ◌++◌, ltb,
  leb, ◌==◌, if◌then◌else◌, get_elem?,
}
use libelfin.Result.{Result, ok, err, format_error, bad_directory_index, ◌>>=◌}
use libelfin.Dwarf.Section.{Section}
use libelfin.Dwarf.Cursor
use libelfin.Dwarf.Cursor.{Cursor, get_section_offset, uleb128}

-- `line_table::file`
pub record FileEntry : Type 0 where
  pub path : List ℕ
  pub mtime : ℕ
  pub length : ℕ

-- `line_table::entry`
pub record Row : Type 0 where
  pub address : ℕ
  pub op_index : ℕ
  pub file : Option ℕ
  pub file_index : ℕ
  pub line : ℕ
  pub column : ℕ
  pub is_stmt : Bool
  pub basic_block : Bool
  pub end_sequence : Bool
  pub prologue_end : Bool
  pub epilogue_begin : Bool
  pub isa : ℕ
  pub discriminator : ℕ

-- `entry::reset`
unfoldable pub reset : Bool → Row
reset is_stmt = record {
  address = 0;
  op_index = 0;
  file = none;
  file_index = 1;
  line = 1;
  column = 0;
  is_stmt = is_stmt;
  basic_block = false;
  end_sequence = false;
  prologue_end = false;
  epilogue_begin = false;
  isa = 0;
  discriminator = 0;
}

-- `line_table::impl`
pub record Table : Type 0 where
  pub sec : Section
  pub program_offset : ℕ
  pub minimum_instruction_length : ℕ
  pub maximum_operations : ℕ
  pub default_is_stmt : Bool
  pub line_base : ℕ
  pub line_range : ℕ
  pub opcode_base : ℕ
  pub standard_opcode_lengths : List ℕ
  pub include_directories : List (List ℕ)
  pub file_names : List FileEntry
  pub last_file_name_end : ℕ
  pub file_names_complete : Bool

-- `text[0] == '/'`: the text's end is a zero.
abbrev pub starts_with_slash : List ℕ → Bool
starts_with_slash [] = false
starts_with_slash (b ∷ bs) = b == b'/'

-- `text.back() == '/'`
abbrev pub ends_with_slash : List ℕ → Bool
ends_with_slash [] = false
ends_with_slash (b ∷ []) = b == b'/'
ends_with_slash (b ∷ (b' ∷ bs)) = ends_with_slash (b' ∷ bs)

-- `file_names.emplace_back(...)`
abbrev pub push_file : FileEntry → Table → Table
push_file f t = record t { file_names = t.file_names ++ (f ∷ []) }

-- The path behind the directory, if the directory is there.
abbrev pub in_directory : Option (List ℕ) → List ℕ → ℕ → Result (List ℕ)
in_directory (some dir) name index = ok (dir ++ name)
in_directory none name index = err (format_error (bad_directory_index index))

abbrev pub file_path : Table → List ℕ → ℕ → Result (List ℕ)
file_path t name dir_index =
    if starts_with_slash name
    then ok name
    else in_directory (get_elem? t.include_directories dir_index) name dir_index

-- `read_file_entry` behind the name: the attributes, and the entry unless it was read before.
unfoldable pub read_file_attributes : Table → List ℕ → Cursor → Result (Table × Cursor)
read_file_attributes t name c = do
  (dir_index, c1) ← uleb128 c
  (mtime, c2) ← uleb128 c1
  (length, c3) ← uleb128 c2
  let fresh = record t { last_file_name_end = get_section_offset c3 }
  if leb (get_section_offset c3) t.last_file_name_end then ok (t, c3) else (do
    path ← file_path t name dir_index
    ok (push_file (record { path = path; mtime = mtime; length = length }) fresh, c3))

abbrev pub is_empty : List ℕ → Bool
is_empty [] = true
is_empty (b ∷ bs) = false

-- `read_file_entry`: whether it read an entry, the table and the cursor.
unfoldable pub read_file_entry : Table → Bool → Cursor → Result (Bool × Table × Cursor)
read_file_entry t in_header c = do
  (name, c1) ← Cursor.string c
  if in_header && is_empty name
      then ok (false, t, c1)
      else (do (t', c2) ← read_file_attributes t name c1; ok (true, t', c2))
