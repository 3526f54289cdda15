-- ===== src/Elf/Symtab.antt =====
-- elf/data.hh and elf/elf.cc: `Sym`, `sym`, `symtab` and its iterator.
use libelfin.Prelude.{ℕ, ◌*◌, ◌/◌, ◌%◌, List, [], ◌∷◌, take, drop, bit_and, bit_or, ◌||◌, ◌==◌}
use libelfin.Result.{
  Result, ok, err, undefined, type_mismatch, wrong_section_type, guard, ◌>>=◌, ◌>>◌,
}
use libelfin.Dwarf.Section.{ByteOrder, ptr_add}
use libelfin.Elf.Header.{ElfClass, elf32, elf64, Shdr, from}
use libelfin.Elf.Strtab.{Strtab, get}
use libelfin.Elf.File.{Elf, get_section, as_strtab, valid}

pub record Sym : Type 0 where
  pub name : ℕ
  pub value : ℕ
  pub size : ℕ
  pub info : ℕ
  pub other : ℕ
  pub shnxd : ℕ

abbrev pub sym_sizes : ElfClass → List ℕ
sym_sizes elf32 = 4 ∷ 4 ∷ 4 ∷ 1 ∷ 1 ∷ 2 ∷ []
sym_sizes elf64 = 4 ∷ 1 ∷ 1 ∷ 2 ∷ 8 ∷ 8 ∷ []

abbrev pub sym_of : ElfClass → List ℕ → Result Sym
sym_of elf32 (name ∷ value ∷ size ∷ info ∷ other ∷ shnxd ∷ []) =
    ok (record {
      name = name;
      value = value;
      size = size;
      info = info;
      other = other;
      shnxd = shnxd;
    })
sym_of elf64 (name ∷ info ∷ other ∷ shnxd ∷ value ∷ size ∷ []) =
    ok (record {
      name = name;
      value = value;
      size = size;
      info = info;
      other = other;
      shnxd = shnxd;
    })
sym_of _ _ = err undefined

-- `canon_hdr` on a Sym
unfoldable pub canon_sym : ByteOrder → ElfClass → ByteOrder → List ℕ → ℕ → Result Sym
canon_sym host cls order mem p = do vs ← from host order (sym_sizes cls) mem p; sym_of cls vs

-- `(stb)(info >> 4)` and `(stt)(info & 0xF)`
pub binding : Sym → ℕ
binding s = s.info / 16

pub sym_type : Sym → ℕ
sym_type s = bit_and s.info 0x0f

-- `set_binding` and `set_type`, on an unsigned char
pub set_binding : ℕ → Sym → Sym
set_binding v s = record s { info = bit_or (bit_and s.info 0x0f) (v * 16) % 256 }

pub set_type : ℕ → Sym → Sym
set_type v s = record s { info = bit_or (bit_and s.info 0xf0) v }

-- `symtab::impl`
pub record Symtab : Type 0 where
  pub file : Elf
  pub mem : List ℕ
  pub start : ℕ
  pub end : ℕ
  pub strs : Strtab

-- `section::as_symtab`: 2 is `sht::symtab`, 11 `sht::dynsym`. Neither is `sht::nobits`.
unfoldable pub as_symtab : Elf → Shdr → Result Symtab
as_symtab f s = do
  guard (s.type == 2 || s.type == 11) (type_mismatch wrong_section_type)
  (mem, p) ← f.load s.offset s.size
  names ← valid (get_section s.link f)
  strs ← as_strtab f names
  ok (record { file = f; mem = mem; start = p; end = ptr_add p s.size; strs = strs })

-- `symtab::iterator`: the place in the table.
abbrev pub stride : ElfClass → ℕ
stride elf32 = 16
stride elf64 = 24

pub begin : Symtab → ℕ
begin t = t.start

-- The end of the section, which the iterator meets only if the size is a multiple of the stride.
pub end_of : Symtab → ℕ
end_of t = t.end

pub next : Symtab → ℕ → ℕ
next t pos = ptr_add pos (stride t.file.cls)

pub deref : ByteOrder → Symtab → ℕ → Result Sym
deref host t pos = canon_sym host t.file.cls t.file.order t.mem pos

-- `sym::get_name`
unfoldable pub sym_name : Symtab → Sym → Result (List ℕ)
sym_name t s = do (p, n) ← get s.name t.strs; ok (take n (drop p t.strs.mem))
