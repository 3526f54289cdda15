-- ===== src/Elf/Header.antt =====
-- elf/data.hh and `canon_hdr` of elf/elf.cc: the headers of a file, brought into the form of 64-bit ELF
-- on the machine. A header is the list of its fields until they are named; `Half`, `Word` and the
-- enumerations are numbers.
pub mod Host
use libelfin.Prelude.{ℕ, zero, suc, ◌+◌, ◌%◌, ◌^◌, List, [], ◌∷◌, ◌++◌, take, drop}
use libelfin.Result.{Result, ok, err, undefined, ◌>>=◌}
use libelfin.Dwarf.Section.{ByteOrder, lsb, msb}
use libelfin.Dwarf.Cursor.{fixed_value}
use libelfin.Elf.Order.{native, resolved, swizzle}

-- `elfclass`
pub data ElfClass : Type 0 where
  elf32 elf64 : ElfClass

-- The bytes of an `Addr`, an `Off` or a `Word32_Xword64`.
abbrev pub word_size : ElfClass → ℕ
word_size elf32 = 4
word_size elf64 = 8

-- A field of n bytes in memory, as the machine reads it, put through `swizzle`.
unfoldable pub field : ByteOrder → ByteOrder → ℕ → List ℕ → ℕ → Result ℕ
field host order n mem p = do
  v ← fixed_value host n mem p
  ok (swizzle host n v (resolved order) native)

-- `from`: the fields one after the other, by their sizes. No field needs padding before it.
unfoldable pub from : ByteOrder → ByteOrder → List ℕ → List ℕ → ℕ → Result (List ℕ)
from host order [] mem p = ok []
from host order (n ∷ sizes) mem p = do
  v ← field host order n mem p
  vs ← from host order sizes mem (p + n)
  ok (v ∷ vs)

pub record Ehdr : Type 0 where
  pub ident : List ℕ
  pub type : ℕ
  pub machine : ℕ
  pub version : ℕ
  pub entry : ℕ
  pub phoff : ℕ
  pub shoff : ℕ
  pub flags : ℕ
  pub ehsize : ℕ
  pub phentsize : ℕ
  pub phnum : ℕ
  pub shentsize : ℕ
  pub shnum : ℕ
  pub shstrndx : ℕ

-- The magic number, class, order, version and padding, and the fields behind them.
abbrev pub ident_sizes : List ℕ
ident_sizes = 1 ∷ 1 ∷ 1 ∷ 1 ∷ 1 ∷ 1 ∷ 1 ∷ 1 ∷ 1 ∷ 1 ∷ 1 ∷ 1 ∷ 1 ∷ 1 ∷ 1 ∷ 1 ∷ []

abbrev pub ehdr_sizes : ElfClass → List ℕ
ehdr_sizes cls =
    2 ∷ 2 ∷ 4 ∷ word_size cls ∷ word_size cls ∷ word_size cls ∷ 4 ∷ 2 ∷ 2 ∷ 2 ∷ 2 ∷ 2 ∷ 2 ∷ []

abbrev pub ehdr_of : List ℕ → List ℕ → Result Ehdr
ehdr_of ident
      (type ∷ machine ∷ version ∷ entry ∷ phoff ∷ shoff ∷ flags ∷ ehsize ∷ phentsize ∷ phnum
        ∷ shentsize ∷ shnum ∷ shstrndx ∷ []) =
    ok (record {
      ident = ident;
      type = type;
      machine = machine;
      version = version;
      entry = entry;
      phoff = phoff;
      shoff = shoff;
      flags = flags;
      ehsize = ehsize;
      phentsize = phentsize;
      phnum = phnum;
      shentsize = shentsize;
      shnum = shnum;
      shstrndx = shstrndx;
    })
ehdr_of ident _ = err undefined

-- `canon_hdr` on an Ehdr
unfoldable pub canon_ehdr : ByteOrder → ElfClass → ByteOrder → List ℕ → ℕ → Result Ehdr
canon_ehdr host cls order mem p = do
  ident ← from host order ident_sizes mem p
  vs ← from host order (ehdr_sizes cls) mem (p + 16)
  ehdr_of ident vs

pub record Shdr : Type 0 where
  pub name : ℕ
  pub type : ℕ
  pub flags : ℕ
  pub addr : ℕ
  pub offset : ℕ
  pub size : ℕ
  pub link : ℕ
  pub info : ℕ
  pub addralign : ℕ
  pub entsize : ℕ

abbrev pub shdr_sizes : ElfClass → List ℕ
shdr_sizes cls =
    4
    ∷ 4
    ∷ word_size cls
    ∷ word_size cls
    ∷ word_size cls
    ∷ word_size cls
    ∷ 4
    ∷ 4
    ∷ word_size cls
    ∷ word_size cls
    ∷ []

-- In the form of the machine, `link` is a `shn`, which has 16 bits.
abbrev pub shdr_of : List ℕ → Result Shdr
shdr_of (name ∷ type ∷ flags ∷ addr ∷ offset ∷ size ∷ link ∷ info ∷ addralign ∷ entsize ∷ []) =
    ok (record {
      name = name;
      type = type;
      flags = flags;
      addr = addr;
      offset = offset;
      size = size;
      link = link % 2 ^ 16;
      info = info;
      addralign = addralign;
      entsize = entsize;
    })
shdr_of _ = err undefined

-- `canon_hdr` on a Shdr
unfoldable pub canon_shdr : ByteOrder → ElfClass → ByteOrder → List ℕ → ℕ → Result Shdr
canon_shdr host cls order mem p = do vs ← from host order (shdr_sizes cls) mem p; shdr_of vs

pub record Phdr : Type 0 where
  pub type : ℕ
  pub flags : ℕ
  pub offset : ℕ
  pub vaddr : ℕ
  pub paddr : ℕ
  pub filesz : ℕ
  pub memsz : ℕ
  pub align : ℕ

-- The flags stand behind the sizes in 32-bit ELF, and behind the type in 64-bit ELF.
abbrev pub phdr_sizes : ElfClass → List ℕ
phdr_sizes elf32 = 4 ∷ 4 ∷ 4 ∷ 4 ∷ 4 ∷ 4 ∷ 4 ∷ 4 ∷ []
phdr_sizes elf64 = 4 ∷ 4 ∷ 8 ∷ 8 ∷ 8 ∷ 8 ∷ 8 ∷ 8 ∷ []

abbrev pub phdr_record : ℕ → ℕ → ℕ → ℕ → ℕ → ℕ → ℕ → ℕ → Phdr
phdr_record type flags offset vaddr paddr filesz memsz align = record {
  type = type;
  flags = flags;
  offset = offset;
  vaddr = vaddr;
  paddr = paddr;
  filesz = filesz;
  memsz = memsz;
  align = align;
}

abbrev pub phdr_of : ElfClass → List ℕ → Result Phdr
phdr_of elf32 (type ∷ offset ∷ vaddr ∷ paddr ∷ filesz ∷ memsz ∷ flags ∷ align ∷ []) =
    ok (phdr_record type flags offset vaddr paddr filesz memsz align)
phdr_of elf64 (type ∷ flags ∷ offset ∷ vaddr ∷ paddr ∷ filesz ∷ memsz ∷ align ∷ []) =
    ok (phdr_record type flags offset vaddr paddr filesz memsz align)
phdr_of _ _ = err undefined

-- `canon_hdr` on a Phdr
unfoldable pub canon_phdr : ByteOrder → ElfClass → ByteOrder → List ℕ → ℕ → Result Phdr
canon_phdr host cls order mem p = do vs ← from host order (phdr_sizes cls) mem p; phdr_of cls vs
