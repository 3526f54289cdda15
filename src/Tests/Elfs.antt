-- ===== src/Tests/Elfs.antt =====
-- A big-endian 32-bit ELF file of one section, which holds its own name, and the parts of the reader.
use mathlib.Core.Path.{subst}
use libelfin.Prelude.{
  ℕ, ◌+◌, ◌≡◌, refl, true, false, List, [], ◌∷◌, arith, Bool, ltb, if◌then◌else◌, All, length,
}
use libelfin.Result.{Result, ok, err, range_error, bad_string_offset, ok_inj}
use libelfin.Word.{IsByte}
use libelfin.Dwarf.Section.{lsb, msb}
use libelfin.Dwarf.Cursor.{fixed_lsb, fixed_msb, read_byte, scan_string}
use libelfin.Dwarf.Cursor.Fixed.{order_value}
use libelfin.Elf.Hex.{to_hex, fill}
use libelfin.Elf.Order.{ElfOrder, resolved, resolve_order, swizzle, bswap}
use libelfin.Elf.Order.Field.{swizzle-order_value}
use libelfin.Elf.Header.{elf32, Shdr, canon_ehdr, canon_shdr, from, field}
use libelfin.Elf.Strtab.{Strtab, get, get_at, strtab}
use libelfin.Elf.Strtab.Bounds.{IsTable, Found, get-Found}
use libelfin.Elf.File.{
  Load, Elf, elf, check_core, is_magic, read_table, get_name, as_strtab, get_section,
}
use libelfin.Elf.File.Checked.{IsChecked, elf-IsChecked}
use libelfin.Elf.File.AnyHost.{LoadsBytes, elf_any_host}

abbrev file_bytes : List ℕ
file_bytes =
    127 ∷ 69 ∷ 76 ∷ 70 ∷ 1 ∷ 2 ∷ 1 ∷ 0 ∷ 0 ∷ 0 ∷ 0 ∷ 0 ∷ 0 ∷ 0 ∷ 0 ∷ 0 ∷ 0 ∷ 1 ∷ 0 ∷ 8 ∷ 0 ∷ 0 ∷ 0
    ∷ 1 ∷ 0 ∷ 0 ∷ 0 ∷ 0 ∷ 0 ∷ 0 ∷ 0 ∷ 0 ∷ 0 ∷ 0 ∷ 0 ∷ 52 ∷ 0 ∷ 0 ∷ 0 ∷ 0 ∷ 0 ∷ 52 ∷ 0 ∷ 32 ∷ 0 ∷ 0
    ∷ 0 ∷ 40 ∷ 0 ∷ 1 ∷ 0 ∷ 0 ∷ 0 ∷ 0 ∷ 0 ∷ 1 ∷ 0 ∷ 0 ∷ 0 ∷ 3 ∷ 0 ∷ 0 ∷ 0 ∷ 0 ∷ 0 ∷ 0 ∷ 0 ∷ 0 ∷ 0 ∷ 0
    ∷ 0 ∷ 92 ∷ 0 ∷ 0 ∷ 0 ∷ 7 ∷ 0 ∷ 0 ∷ 0 ∷ 0 ∷ 0 ∷ 0 ∷ 0 ∷ 0 ∷ 0 ∷ 0 ∷ 0 ∷ 1 ∷ 0 ∷ 0 ∷ 0 ∷ 0 ∷ 0
    ∷ 46 ∷ 115 ∷ 116 ∷ 114 ∷ 115 ∷ 0 ∷ []

abbrev load : Load
load offset size =
    if ltb (length file_bytes) (offset + size)
    then err (range_error bad_string_offset)
    else ok (file_bytes, offset)

abbrev names : Shdr
names = record {
  name = 1;
  type = 3;
  flags = 0;
  addr = 0;
  offset = 92;
  size = 7;
  link = 0;
  info = 0;
  addralign = 1;
  entsize = 0;
}

abbrev file : Elf
file = record {
  load = load;
  cls = elf32;
  order = msb;
  hdr = record {
    ident = 127 ∷ 69 ∷ 76 ∷ 70 ∷ 1 ∷ 2 ∷ 1 ∷ 0 ∷ 0 ∷ 0 ∷ 0 ∷ 0 ∷ 0 ∷ 0 ∷ 0 ∷ 0 ∷ [];
    type = 1;
    machine = 8;
    version = 1;
    entry = 0;
    phoff = 0;
    shoff = 52;
    flags = 0;
    ehsize = 52;
    phentsize = 32;
    phnum = 0;
    shentsize = 40;
    shnum = 1;
    shstrndx = 0;
  };
  segments = [];
  sections = names ∷ [];
}

reads_file : elf lsb load ≡ ok file
unfolding elf check_core is_magic canon_ehdr canon_shdr from field swizzle bswap resolve_order
    read_table read_byte fixed_lsb fixed_msb
reads_file = refl

reads_name : get_name file names ≡ ok (46 ∷ 115 ∷ 116 ∷ 114 ∷ 115 ∷ [])
unfolding get_name get_section as_strtab strtab get get_at scan_string read_byte
reads_name = refl

writes_hex : to_hex 2 0x2a0f ≡ 50 ∷ 97 ∷ 48 ∷ 102 ∷ []
unfolding to_hex fill
writes_hex = refl

elf-IsChecked_example : IsChecked file
elf-IsChecked_example = elf-IsChecked lsb load file reads_file

file_bytes-All : All IsByte file_bytes
file_bytes-All = omega arith

load-LoadsBytes : LoadsBytes load
load-LoadsBytes = record { bytes = bytes }
  where
    chosen :
        (b : Bool) (offset : ℕ) (r : List ℕ × ℕ)
        → ◌≡◌ {A = Result (List ℕ × ℕ)}
            (if b then err (range_error bad_string_offset) else ok (file_bytes, offset))
            (ok r)
        → All IsByte r.0
    chosen true offset r e = absurd (cc)
    chosen false offset r e = subst (λ (s : List ℕ × ℕ). All IsByte s.0) (ok_inj e) file_bytes-All

    bytes : (offset size : ℕ) (r : List ℕ × ℕ) → load offset size ≡ ok r → All IsByte r.0
    bytes offset size r e = chosen (ltb (length file_bytes) (offset + size)) offset r e

elf_any_host_example : elf lsb load ≡ elf msb load
elf_any_host_example = elf_any_host lsb msb load load-LoadsBytes

swizzle-order_value_example :
    swizzle lsb 4 (order_value lsb (0 ∷ 0 ∷ 1 ∷ 2 ∷ [])) (resolved msb) ElfOrder.native
    ≡ order_value msb (0 ∷ 0 ∷ 1 ∷ 2 ∷ [])
swizzle-order_value_example =
    swizzle-order_value lsb msb (0 ∷ 0 ∷ 1 ∷ 2 ∷ []) (omega arith) (omega arith)

-- The section with the names, loaded.
abbrev table : Strtab
table = record { mem = file_bytes; start = 92; end = 99 }

table-IsTable : IsTable table
table-IsTable = record {
  ordered = omega arith;
  within = omega arith;
  addressable = omega arith;
  bytes = file_bytes-All;
}

get-Found_example : Found 93 table (get 1 table)
get-Found_example = get-Found 1 table table-IsTable (omega arith)
