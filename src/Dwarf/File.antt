-- ===== src/Dwarf/File.antt =====
-- dwarf/dwarf.cc: the `dwarf` object, its sections and its units. The loader is the caller's.
pub mod Sniff
pub mod Opened
pub mod Cache
use libelfin.Prelude.{
  ℕ, zero, suc, ◌*◌, ◌/◌, ◌≡◌, Bool, true, false, Option, none, some, List, [], ◌∷◌, bit_and,
  bit_or, ltb, ◌==◌, if◌then◌else◌,
}
use libelfin.Result.{
  Reason, Result, ok, err, out_of_fuel, format_error, out_of_range, missing_info, missing_abbrev,
  missing_section, unknown_type_signature, ◌>>=◌,
}
use libelfin.Dwarf.Section.{Section, SectionType, ByteOrder, lsb, msb, Format, ptr_add}
use libelfin.Dwarf.Cursor.{Cursor, cursor_at, at_end, get_section_offset, fixed, subsection}
use libelfin.Dwarf.Units.{UnitImpl, compilation_unit, type_unit}

-- What `loader::load` returns for a section that is there: the memory, the pointer and the size.
pub record Loaded : Type 0 where
  pub mem : List ℕ
  pub ptr : ℕ
  pub size : ℕ

abbrev pub Loader : Type 0
Loader = SectionType → Option Loaded

-- `section(type, data, size, ord)`
abbrev pub make_section : SectionType → Loaded → ByteOrder → Section
make_section which x ord = record {
  type = which;
  mem = x.mem;
  begin = x.ptr;
  end = ptr_add x.ptr x.size;
  fmt = Format.unknown;
  ord = ord;
  addr_size = 0;
}

-- `dwarf::impl`. A type unit's key in `type_units` is its signature.
pub record Dwarf : Type 0 where
  pub l : Loader
  pub sec_info : Section
  pub sec_abbrev : Section
  pub compilation_units : List UnitImpl
  pub type_units : List UnitImpl
  pub have_type_units : Bool
  pub sections : List (SectionType × Section)

-- `if (length == 0xffffffff) endcur.fixed<uint64_t>();`
abbrev pub skip_length : ℕ → Cursor → Result Cursor
skip_length length endcur =
    if length == 0xffff_ffff then (do (length64, c) ← fixed 8 endcur; ok c) else ok endcur

-- The version of the first unit, behind its length.
unfoldable pub read_version : Section → Result ℕ
read_version s = do
  (length, endcur) ← fixed 4 (cursor_at s 0)
  endcur' ← skip_length length endcur
  (version, c) ← fixed 2 endcur'
  ok version

-- `(version >> 8) | ((version & 0xFF) << 8)`
unfoldable pub swap_half : ℕ → ℕ
swap_half version = bit_or (version / 256) (bit_and version 0xff * 256)

-- The byte order, from the version as the little-endian section reads it.
unfoldable pub sniff : Section → Result ByteOrder
sniff s = do version ← read_version s; ok (if ltb (swap_half version) version then msb else lsb)

-- `while (!infocur.end())`
unfoldable pub read_units : ℕ → Section → Cursor → Result (List UnitImpl)
read_units zero info c = err out_of_fuel
read_units (suc rounds) info c =
    let further = (do
      u ← compilation_unit info (get_section_offset c)
      (subsec, c') ← subsection c
      us ← read_units rounds info c'
      ok (u ∷ us)) in
    if at_end c then ok [] else further

abbrev pub required : Reason → Option Loaded → Result Loaded
required why none = err (format_error why)
required why (some x) = ok x

-- `dwarf(l)`
unfoldable pub dwarf : ℕ → Loader → Result Dwarf
dwarf rounds l = do
  info ← required missing_info (l SectionType.info)
  ord ← sniff (make_section SectionType.info info lsb)
  abbrevs ← required missing_abbrev (l SectionType.abbrev_)
  let sec_info = make_section SectionType.info info ord
  units ← read_units rounds sec_info (cursor_at sec_info 0)
  ok (record {
    l = l;
    sec_info = sec_info;
    sec_abbrev = make_section SectionType.abbrev_ abbrevs ord;
    compilation_units = units;
    type_units = [];
    have_type_units = false;
    sections = [];
  })

-- The order of `enum class section_type`.
abbrev pub section_code : SectionType → ℕ
section_code SectionType.abbrev_ = 0
section_code SectionType.aranges = 1
section_code SectionType.frame = 2
section_code SectionType.info = 3
section_code SectionType.line = 4
section_code SectionType.loc = 5
section_code SectionType.macinfo = 6
section_code SectionType.pubnames = 7
section_code SectionType.pubtypes = 8
section_code SectionType.ranges = 9
section_code SectionType.str = 10
section_code SectionType.types = 11

abbrev pub is_type : SectionType → SectionType → Bool
is_type a b = section_code a == section_code b

-- `m->sections.find(type)`
unfoldable pub find_section : SectionType → List (SectionType × Section) → Option Section
find_section which [] = none
find_section which ((t, s) ∷ rest) = if is_type t which then some s else find_section which rest

-- The section is made with the type `str`, whatever was asked for.
abbrev pub add_section : SectionType → Option Loaded → Dwarf → Result (Section × Dwarf)
add_section which none d = err (format_error missing_section)
add_section which (some x) d =
    let s = make_section SectionType.str x d.sec_info.ord in
    ok (s, record d { sections = (which, s) ∷ d.sections })

abbrev pub found_or_load : SectionType → Option Section → Dwarf → Result (Section × Dwarf)
found_or_load which none d = add_section which (d.l which) d
found_or_load which (some s) d = ok (s, d)

-- `dwarf::get_section`
unfoldable pub get_section : SectionType → Dwarf → Result (Section × Dwarf)
get_section which d =
    if is_type which SectionType.info
    then ok (d.sec_info, d)
    else if is_type which SectionType.abbrev_
    then ok (d.sec_abbrev, d)
    else found_or_load which (find_section which d.sections) d

-- `m->type_units[tu.get_type_signature()] = tu`
unfoldable pub put_unit : UnitImpl → List UnitImpl → List UnitImpl
put_unit u [] = u ∷ []
put_unit u (x ∷ us) = if x.type_signature == u.type_signature then u ∷ us else x ∷ put_unit u us

unfoldable pub find_unit : ℕ → List UnitImpl → Option UnitImpl
find_unit sig [] = none
find_unit sig (x ∷ us) = if x.type_signature == sig then some x else find_unit sig us

-- `while (!tucur.end())`
unfoldable pub read_type_units : ℕ → Section → Cursor → List UnitImpl → Result (List UnitImpl)
read_type_units zero types c us = err out_of_fuel
read_type_units (suc rounds) types c us =
    let further = (do
      tu ← type_unit types (get_section_offset c)
      (subsec, c') ← subsection c
      read_type_units rounds types c' (put_unit tu us)) in
    if at_end c then ok us else further

unfoldable pub force_type_units : ℕ → Dwarf → Result Dwarf
force_type_units rounds d = if d.have_type_units then ok d else (do
  (types, d1) ← get_section SectionType.types d
  us ← read_type_units rounds types (cursor_at types 0) d1.type_units
  ok (record d1 { type_units = us; have_type_units = true }))

abbrev pub known_unit : ℕ → Option UnitImpl → Result UnitImpl
known_unit sig none = err (out_of_range (unknown_type_signature sig))
known_unit sig (some u) = ok u

-- `dwarf::get_type_unit`
unfoldable pub get_type_unit : ℕ → ℕ → Dwarf → Result (UnitImpl × Dwarf)
get_type_unit rounds sig d = do
  d' ← force_type_units rounds d
  u ← known_unit sig (find_unit sig d'.type_units)
  ok (u, d')
