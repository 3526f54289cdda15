-- ===== src/Tests/Files.antt =====
-- A file of one compilation unit in .debug_info, with its abbreviations and a type unit.
use libelfin.Prelude.{ℕ, ◌≡◌, refl, true, false, none, some, List, [], ◌∷◌, arith}
use libelfin.Result.{ok, Returns}
use libelfin.Dwarf.Section.{Section, SectionType, Format, lsb, msb}
use libelfin.Dwarf.Cursor.{
  fixed, ensure, fixed_lsb, fixed_msb, read_byte, subsection, skip_initial_length, offset,
}
use libelfin.Dwarf.Units.{UnitImpl, compilation_unit, type_unit, read_layout}
use libelfin.Dwarf.File.{
  Loaded, Loader, Dwarf, make_section, read_version, sniff, read_units, dwarf, get_section,
  find_section, get_type_unit, force_type_units, read_type_units, put_unit, find_unit, swap_half,
}
use libelfin.Dwarf.File.Sniff.{in_order, sniff-order}
use libelfin.Dwarf.File.Opened.{Ascending, IsLoaded, dwarf-Returns}
use libelfin.Dwarf.File.Cache.{section_of, get_section-transparent, get_type_unit_again}

-- Length 15, version 4, abbreviations at 0, addresses of 8 bytes; then a DIE of abbreviation 1
-- with the name "a" and ranges at 0, and the end of its children.
abbrev info_bytes : List ℕ
info_bytes = 15 ∷ 0 ∷ 0 ∷ 0 ∷ 4 ∷ 0 ∷ 0 ∷ 0 ∷ 0 ∷ 0 ∷ 8 ∷ 1 ∷ 97 ∷ 0 ∷ 0 ∷ 0 ∷ 0 ∷ 0 ∷ 0 ∷ []

abbrev abbrev_bytes : List ℕ
abbrev_bytes = 1 ∷ 0x11 ∷ 1 ∷ 0x03 ∷ 0x08 ∷ 0x55 ∷ 0x06 ∷ 0 ∷ 0 ∷ 0 ∷ []

-- A type unit with the signature 7 and the type at 23.
abbrev types_bytes : List ℕ
types_bytes =
    20 ∷ 0 ∷ 0 ∷ 0 ∷ 4 ∷ 0 ∷ 0 ∷ 0 ∷ 0 ∷ 0 ∷ 8 ∷ 7 ∷ 0 ∷ 0 ∷ 0 ∷ 0 ∷ 0 ∷ 0 ∷ 0 ∷ 23 ∷ 0 ∷ 0 ∷ 0 ∷ 0
    ∷ []

abbrev loaded_info : Loaded
loaded_info = record { mem = info_bytes; ptr = 0; size = 19 }

abbrev loaded_types : Loaded
loaded_types = record { mem = types_bytes; ptr = 0; size = 24 }

abbrev load : Loader
load SectionType.info = some loaded_info
load SectionType.abbrev_ = some (record { mem = abbrev_bytes; ptr = 0; size = 10 })
load SectionType.types = some loaded_types
load _ = none

abbrev info : Section
info = make_section SectionType.info loaded_info lsb

abbrev pub unit : UnitImpl
unit = record {
  offset = 0;
  subsec = record info { fmt = Format.dwarf32; addr_size = 8 };
  debug_abbrev_offset = 0;
  root_offset = 11;
  type_signature = 0;
  type_offset = 0;
}

abbrev pub file : Dwarf
file = record {
  l = load;
  sec_info = info;
  sec_abbrev =
      make_section SectionType.abbrev_ (record { mem = abbrev_bytes; ptr = 0; size = 10 }) lsb;
  compilation_units = unit ∷ [];
  type_units = [];
  have_type_units = false;
  sections = [];
}

opens_file : dwarf 20 load ≡ ok file
unfolding dwarf sniff read_version swap_half read_units compilation_unit subsection
    skip_initial_length read_layout offset fixed ensure fixed_lsb read_byte
opens_file = refl

loaded_info-IsLoaded : IsLoaded loaded_info
loaded_info-IsLoaded = record {
  within = omega arith;
  addressable = omega arith;
  bytes = omega arith;
}

dwarf-Returns_example : Returns (λ d. Ascending 0 d.compilation_units) (dwarf 20 load)
dwarf-Returns_example =
    dwarf-Returns 20 load
      (λ x e. let same : x ≡ loaded_info = cc in rw same (loaded_info-IsLoaded, omega arith))

-- The same unit in big-endian order.
abbrev big_info_bytes : List ℕ
big_info_bytes = 0 ∷ 0 ∷ 0 ∷ 7 ∷ 0 ∷ 4 ∷ 0 ∷ 0 ∷ 0 ∷ 0 ∷ 8 ∷ []

abbrev big_info : Section
big_info = make_section SectionType.info (record { mem = big_info_bytes; ptr = 0; size = 11 }) lsb

big_version : read_version (in_order msb big_info) ≡ ok 4
unfolding read_version fixed ensure fixed_msb read_byte
big_version = refl

sniff-order_example : sniff (in_order lsb big_info) ≡ ok msb
sniff-order_example =
    sniff-order big_info msb 4 (omega arith) (omega arith) (omega arith) big_version

abbrev types_section : Section
types_section = make_section SectionType.str loaded_types lsb

abbrev file_with_types : Dwarf
file_with_types = record file { sections = (SectionType.types, types_section) ∷ [] }

gets_types : get_section SectionType.types file ≡ ok (types_section, file_with_types)
unfolding get_section find_section
gets_types = refl

get_section-transparent_example :
    section_of SectionType.types file_with_types ≡ section_of SectionType.types file
get_section-transparent_example =
    get_section-transparent SectionType.types SectionType.types file types_section file_with_types
      gets_types

abbrev described : UnitImpl
described = record {
  offset = 0;
  subsec = record types_section { fmt = Format.dwarf32; addr_size = 8 };
  debug_abbrev_offset = 0;
  root_offset = 23;
  type_signature = 7;
  type_offset = 23;
}

abbrev file_with_units : Dwarf
file_with_units = record file_with_types { type_units = described ∷ []; have_type_units = true }

gets_type_unit : get_type_unit 30 7 file ≡ ok (described, file_with_units)
unfolding get_type_unit force_type_units get_section find_section read_type_units type_unit put_unit
    find_unit subsection skip_initial_length offset fixed ensure fixed_lsb read_byte
gets_type_unit = refl

get_type_unit_again_example :
    (described.type_signature ≡ 7)
    × ((n : ℕ) → get_type_unit n 7 file_with_units ≡ ok (described, file_with_units))
get_type_unit_again_example = get_type_unit_again 30 7 file described file_with_units gets_type_unit
