-- ===== src/Elf/File.antt =====
-- elf/elf.cc: `elf`, its segments and sections. The loader is the caller's.
pub mod Checked
pub mod AnyHost
use libelfin.Prelude.{
  ℕ, zero, suc, ◌+◌, ◌*◌, ◌%◌, ◌^◌, Bool, true, false, not, ◌&&◌, ◌||◌, Option, none, some, List,
  [], ◌∷◌, take, drop, ltb, leb, ◌==◌, if◌then◌else◌, get_elem?,
}
use libelfin.Result.{
  Result, ok, err, undefined, format_error, type_mismatch, bad_elf_magic, bad_elf_version,
  bad_elf_class, bad_elf_data, bad_shstrndx, wrong_section_type, guard, ◌>>=◌, ◌>>◌,
}
use libelfin.Dwarf.Section.{ByteOrder, lsb, msb, ptr_add}
use libelfin.Dwarf.Cursor.{read_byte}
use libelfin.Elf.Header.{
  ElfClass, elf32, elf64, Ehdr, Shdr, Phdr, canon_ehdr, canon_shdr, canon_phdr,
}
use libelfin.Elf.Strtab.{Strtab, strtab, get}

-- `loader::load(offset, size)`: the memory and the pointer.
abbrev pub Load : Type 0
Load = ℕ → ℕ → Result (List ℕ × ℕ)

-- `elf::impl`. The class and the order are those of the first bytes: the loader's memory does not
-- change, so they are those of the header too.
pub record Elf : Type 0 where
  pub load : Load
  pub cls : ElfClass
  pub order : ByteOrder
  pub hdr : Ehdr
  pub segments : List Phdr
  pub sections : List Shdr

-- `strncmp(core_hdr->ei_magic, "\x7f" "ELF", 4) != 0`
unfoldable pub is_magic : List ℕ → ℕ → List ℕ → Result Bool
is_magic mem p [] = ok true
is_magic mem p (c ∷ cs) = do
  b ← read_byte mem p
  let rest = is_magic mem (p + 1) cs
  if b == c then rest else ok false

abbrev pub class_of : ℕ → Result ElfClass
class_of v =
    if v == 1 then ok elf32 else if v == 2 then ok elf64 else err (format_error bad_elf_class)

abbrev pub data_of : ℕ → Result ByteOrder
data_of v = if v == 1 then ok lsb else if v == 2 then ok msb else err (format_error bad_elf_data)

-- The checks of the basic header.
unfoldable pub check_core : List ℕ → ℕ → Result (ElfClass × ByteOrder)
check_core mem p = do
  magic ← is_magic mem p (127 ∷ 69 ∷ 76 ∷ 70 ∷ [])
  guard magic (format_error bad_elf_magic)
  version ← read_byte mem (p + 6)
  guard (version == 1) (format_error bad_elf_version)
  ei_class ← read_byte mem (p + 4)
  cls ← class_of ei_class
  ei_data ← read_byte mem (p + 5)
  order ← data_of ei_data
  ok (cls, order)

-- `sizeof(Ehdr<…>)`
abbrev pub ehdr_size : ElfClass → ℕ
ehdr_size elf32 = 52
ehdr_size elf64 = 64

-- A product of two `Half`s, as an int.
abbrev pub table_size : ℕ → ℕ → Result ℕ
table_size entsize num = if ltb (entsize * num) (2 ^ 31) then ok (entsize * num) else err undefined

-- `((const char*)data) + i * entsize`, on an unsigned i
abbrev pub entry_at : ℕ → ℕ → ℕ → ℕ
entry_at p i entsize = ptr_add p ((i * entsize) % 2 ^ 32)

-- The loop over a table of headers, from the entry i on. It reads whole headers, whatever the size
-- of an entry is.
unfoldable pub read_table {ℓ} : {A : Type ℓ} → (ℕ → Result A) → ℕ → ℕ → ℕ → ℕ → Result (List A)
read_table canon zero i p entsize = ok []
read_table canon (suc n) i p entsize = do
  x ← canon (entry_at p i entsize)
  xs ← read_table canon n (i + 1) p entsize
  ok (x ∷ xs)

-- The checks of the canonical header.
abbrev pub check_hdr : Ehdr → Result (Unit {0})
check_hdr hdr = do
  guard (hdr.version == 1) (format_error bad_elf_version)
  guard (not (not (hdr.shnum == 0) && leb hdr.shnum hdr.shstrndx)) (format_error bad_shstrndx)

-- `elf(l)`
unfoldable pub elf : ByteOrder → Load → Result Elf
elf host load = do
  (core, at_core) ← load 0 7
  (cls, order) ← check_core core at_core
  (mem, p) ← load 0 (ehdr_size cls)
  hdr ← canon_ehdr host cls order mem p
  check_hdr hdr
  seg_size ← table_size hdr.phentsize hdr.phnum
  (seg_mem, seg_data) ← load hdr.phoff seg_size
  segments ← read_table (canon_phdr host cls order seg_mem) hdr.phnum 0 seg_data hdr.phentsize
  sec_size ← table_size hdr.shentsize hdr.shnum
  (sec_mem, sec_data) ← load hdr.shoff sec_size
  sections ← read_table (canon_shdr host cls order sec_mem) hdr.shnum 0 sec_data hdr.shentsize
  ok (record {
    load = load;
    cls = cls;
    order = order;
    hdr = hdr;
    segments = segments;
    sections = sections;
  })

-- `elf::get_section(index)` and `elf::get_segment(index)`: `none` is the invalid one.
unfoldable pub get_section : ℕ → Elf → Option Shdr
get_section index f = get_elem? f.sections index

pub get_segment : ℕ → Elf → Option Phdr
get_segment index f = get_elem? f.segments index

-- `section::as_strtab`: 3 is `sht::strtab`, which is not `sht::nobits`.
unfoldable pub as_strtab : Elf → Shdr → Result Strtab
as_strtab f s = do
  guard (s.type == 3) (type_mismatch wrong_section_type)
  (mem, p) ← f.load s.offset s.size
  ok (strtab mem p s.size)

-- A use of the invalid section follows a null pointer.
abbrev pub valid : Option Shdr → Result Shdr
valid none = err undefined
valid (some s) = ok s

-- `section::get_name`: the bytes of the name.
unfoldable pub get_name : Elf → Shdr → Result (List ℕ)
get_name f s = do
  names ← valid (get_section f.hdr.shstrndx f)
  t ← as_strtab f names
  (p, n) ← get s.name t
  ok (take n (drop p t.mem))

abbrev pub same_name : List ℕ → List ℕ → Bool
same_name [] [] = true
same_name [] (b ∷ bs) = false
same_name (a ∷ rest) [] = false
same_name (a ∷ rest) (b ∷ bs) = a == b && same_name rest bs

unfoldable pub find_named : Elf → List ℕ → List Shdr → Result (Option Shdr)
find_named f name [] = ok none
find_named f name (s ∷ rest) = do
  n ← get_name f s
  let later = find_named f name rest
  if same_name name n then ok (some s) else later

-- `elf::get_section(name)`
pub get_named_section : List ℕ → Elf → Result (Option Shdr)
get_named_section name f = find_named f name f.sections

-- `section::data`: 8 is `sht::nobits`.
unfoldable pub section_data : Elf → Shdr → Result (Option (List ℕ × ℕ))
section_data f s = if s.type == 8 then ok none else (do r ← f.load s.offset s.size; ok (some r))

-- `segment::data`
pub segment_data : Elf → Phdr → Result (List ℕ × ℕ)
segment_data f s = f.load s.offset s.filesz
