-- ===== src/Tests/Abbrevs.antt =====
-- An abbreviation with a name and a range list, and the type of a section offset.
use libelfin.Prelude.{ℕ, ◌≡◌, refl, true, false, List, [], ◌∷◌, arith, All}
use libelfin.Result.{ok, Returns}
use libelfin.Dwarf.Section.{lsb}
use libelfin.Dwarf.Cursor.{cursor_at, uleb128, uleb128_loop, read_byte, fixed, ensure, fixed_lsb}
use libelfin.Dwarf.Cursor.Image.{InImage}
use libelfin.Dwarf.Form.{Form, form_of}
use libelfin.Dwarf.Abbrev.{
  ValueType, AbbrevEntry, resolve_type, sec_offset_type, read_abbrev, read_attributes,
}
use libelfin.Dwarf.Abbrev.Table.{
  AbbrevTable, blank_entry, put_entry, read_entries, move_entries, store_entries, force_abbrevs,
  get_abbrev, known_entry,
}
use libelfin.Dwarf.Abbrev.Table.Lookup.{entries_from, last_with, force_abbrevs-get}
use libelfin.Dwarf.Abbrev.Read.{IsTyped, read_abbrev-Returns}
use libelfin.Tests.Data.{section_of, cursor_in}

-- Code 1, DW_TAG_compile_unit with children; DW_AT_name as string, DW_AT_ranges as data4.
abbrev bytes : List ℕ
bytes = 1 ∷ 0x11 ∷ 1 ∷ 0x03 ∷ 0x08 ∷ 0x55 ∷ 0x06 ∷ 0 ∷ 0 ∷ []

bytes-InImage : InImage (section_of lsb bytes)
bytes-InImage = omega arith

abbrev blank : AbbrevEntry
blank = record { code = 0; tag = 0; children = false; attributes = [] }

abbrev unit : AbbrevEntry
unit = record {
  code = 1;
  tag = 0x11;
  children = true;
  attributes =
      record { name = 0x03; form = Form.string; type = ValueType.string }
      ∷ record { name = 0x55; form = Form.data4; type = ValueType.rangelist }
      ∷ [];
}

reads_unit : read_abbrev 10 blank (cursor_in lsb bytes 0) ≡ ok (true, unit, cursor_in lsb bytes 9)
unfolding read_abbrev read_attributes resolve_type sec_offset_type form_of uleb128 uleb128_loop
    read_byte fixed ensure fixed_lsb
reads_unit = refl

read_abbrev-Returns_example :
    Returns (λ r. All IsTyped r.1.attributes) (read_abbrev 10 blank (cursor_in lsb bytes 0))
read_abbrev-Returns_example =
    read_abbrev-Returns 10 blank (cursor_in lsb bytes 0) bytes-InImage (omega arith)

-- The table with this one entry is dense: the vector has the slots 0 and 1.
abbrev table : AbbrevTable
table = record { vec = blank_entry ∷ unit ∷ []; map = [] }

abbrev table_bytes : List ℕ
table_bytes = 1 ∷ 0x11 ∷ 1 ∷ 0x03 ∷ 0x08 ∷ 0x55 ∷ 0x06 ∷ 0 ∷ 0 ∷ 0 ∷ []

forces_table : force_abbrevs 100 10 10 (section_of lsb table_bytes) 0 ≡ ok table
unfolding force_abbrevs read_entries store_entries move_entries put_entry read_abbrev
    read_attributes resolve_type sec_offset_type form_of uleb128 uleb128_loop read_byte fixed ensure
    fixed_lsb
forces_table = refl

force_abbrevs-get_example :
    (es : List AbbrevEntry) × (entries_from 10 10 blank_entry
        (cursor_at (section_of lsb table_bytes) 0)
      ≡ ok es)
    × ((code : ℕ) → get_abbrev table code ≡ known_entry code (last_with code es))
force_abbrevs-get_example =
    force_abbrevs-get 100 10 10 0 (section_of lsb table_bytes) table forces_table
