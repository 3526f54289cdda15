-- ===== src/Dwarf/ElfLoader.antt =====
-- dwarf/dwarf++.hh: `elf_loader`, the loader that hands out the sections of an ELF file.
use libelfin.Prelude.{ℕ, Option, none, some, List}
use libelfin.Result.{Result, ok, err, undefined, ◌>>=◌}
use libelfin.Dwarf.Section.{SectionType}
use libelfin.Dwarf.File.{Loaded}
use libelfin.Dwarf.Names.{section_type_to_name}
use libelfin.Elf.Header.{Shdr}
use libelfin.Elf.File.{Elf, get_named_section, section_data}

-- The data of a section that is there, which may be a null pointer.
abbrev pub load_found : Elf → Option Shdr → Result (Option Loaded)
load_found f none = ok none
load_found f (some sec) = do data_ ← section_data f sec; ok (sized data_)
  where
    sized : Option (List ℕ × ℕ) → Option Loaded
    sized none = none
    sized (some (mem, p)) = some (record { mem = mem; ptr = p; size = sec.size })

-- `elf_loader::load`: a type without a name makes a string of a null pointer.
abbrev pub elf_load : Elf → SectionType → Result (Option Loaded)
elf_load f which = load_named (section_type_to_name which)
  where
    load_named : Option (List ℕ) → Result (Option Loaded)
    load_named none = err undefined
    load_named (some name) = do sec ← get_named_section name f; load_found f sec
