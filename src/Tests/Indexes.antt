-- ===== src/Tests/Indexes.antt =====
-- Two siblings, "a" and "b", and the index of their names.
use libelfin.Prelude.{ℕ, ◌+◌, ◌≡◌, refl, true, some, none, [], ◌∷◌, arith}
use libelfin.Result.{ok, Gives}
use libelfin.Dwarf.Cursor.{
  fixed, ensure, fixed_lsb, read_byte, uleb128, uleb128_loop, scan_string, cstr,
}
use libelfin.Dwarf.Form.{Form, form_of}
use libelfin.Dwarf.Skip.{skip_form}
use libelfin.Dwarf.Abbrev.{
  ValueType, AbbrevEntry, resolve_type, sec_offset_type, read_abbrev, read_attributes,
}
use libelfin.Dwarf.Abbrev.Table.{
  force_abbrevs, read_entries, store_entries, move_entries, put_entry, get_abbrev,
}
use libelfin.Dwarf.Units.{UnitImpl}
use libelfin.Dwarf.Value.{make_value, resolve_indirect, as_string, as_cstr}
use libelfin.Dwarf.Die.{
  Die, abbrevs_of, read_attrs, read, has, has_in, lookup, find_attr, walk, increment,
}
use libelfin.Dwarf.DieStrMap.{DieStrMap, find_text}
use libelfin.Dwarf.DieStrMap.Indexed.{Answer, Matches, find_text-Answer}
use libelfin.Dwarf.DieStrMap.Siblings.{
  Behind, followed, ended, answer, first_with, find_text-first_with,
}
use libelfin.Tests.Files.{file, unit}

abbrev siblings : UnitImpl
siblings = record unit {
  subsec = record unit.subsec {
    mem =
        24 ∷ 0 ∷ 0 ∷ 0 ∷ 4 ∷ 0 ∷ 0 ∷ 0 ∷ 0 ∷ 0 ∷ 8 ∷ 1 ∷ 97 ∷ 0 ∷ 0 ∷ 0 ∷ 0 ∷ 0 ∷ 0 ∷ 1 ∷ 98 ∷ 0 ∷ 0
        ∷ 0 ∷ 0 ∷ 0 ∷ 0 ∷ 0 ∷ [];
    end = 28;
  };
}

abbrev entry : AbbrevEntry
entry = record {
  code = 1;
  tag = 0x11;
  children = true;
  attributes =
      record { name = 0x03; form = Form.string; type = ValueType.string }
      ∷ record { name = 0x55; form = Form.data4; type = ValueType.rangelist }
      ∷ [];
}

abbrev sibling_at : ℕ → Die
sibling_at off = record {
  cu = siblings;
  abbrev_ = some entry;
  offset = off;
  tag = 0x11;
  attrs = (off + 1) ∷ (off + 3) ∷ [];
  next = off + 7;
}

abbrev last : Die
last = record (sibling_at 19) { abbrev_ = none; offset = 27; next = 28 }

to_second : increment 3 100 file (sibling_at 11) ≡ ok (sibling_at 19)
unfolding increment walk has has_in read abbrevs_of force_abbrevs read_entries store_entries
    move_entries put_entry get_abbrev read_attrs read_abbrev read_attributes resolve_type
    sec_offset_type form_of skip_form uleb128 uleb128_loop scan_string read_byte fixed ensure
    fixed_lsb
to_second = refl

to_last : increment 3 100 file (sibling_at 19) ≡ ok last
unfolding increment walk has has_in read abbrevs_of force_abbrevs read_entries store_entries
    move_entries put_entry get_abbrev read_attrs read_abbrev read_attributes resolve_type
    sec_offset_type form_of skip_form uleb128 uleb128_loop scan_string read_byte fixed ensure
    fixed_lsb
to_last = refl

behind : Behind 3 100 file (sibling_at 11) (sibling_at 19 ∷ last ∷ [])
behind =
    followed (sibling_at 11) (sibling_at 19) (last ∷ []) refl to_second
      (followed (sibling_at 19) last [] refl to_last (ended last refl))

abbrev new_index : DieStrMap
new_index = record { str_map = []; attr = 0x03; accept = 0x11 ∷ []; pos = sibling_at 11 }

find_text-first_with_example :
    answer (find_text 3 3 100 file (98 ∷ []) new_index)
    ≡ first_with file 0x03 (0x11 ∷ []) (98 ∷ []) (sibling_at 19 ∷ last ∷ [])
find_text-first_with_example =
    find_text-first_with 3 100 3 file (98 ∷ []) new_index (sibling_at 19 ∷ last ∷ []) refl behind
      (omega arith)

finds_second :
    first_with file 0x03 (0x11 ∷ []) (98 ∷ []) (sibling_at 19 ∷ last ∷ [])
    ≡ ok (some (sibling_at 19))
unfolding has has_in lookup find_attr make_value resolve_indirect as_string as_cstr cstr scan_string
    read_byte
finds_second = refl

misses_first : first_with file 0x03 (0x11 ∷ []) (97 ∷ []) (sibling_at 19 ∷ last ∷ []) ≡ ok none
unfolding has has_in lookup find_attr make_value resolve_indirect as_string as_cstr cstr scan_string
    read_byte
misses_first = refl

second-Matches : Matches file 0x03 (0x11 ∷ []) (98 ∷ []) (sibling_at 19)
unfolding lookup find_attr make_value resolve_indirect as_string as_cstr cstr scan_string read_byte
second-Matches = record {
  accepted = refl;
  dval = record { cu = siblings; form = Form.string; type = ValueType.string; offset = 20 };
  found = refl;
  string = refl;
  text = refl;
}

abbrev used_index : DieStrMap
used_index = record new_index { str_map = (98 ∷ [], sibling_at 19) ∷ []; pos = sibling_at 19 }

find_text-Answer_example :
    Gives (Answer file (99 ∷ [])) (find_text 3 3 100 file (99 ∷ []) used_index)
find_text-Answer_example = find_text-Answer 3 3 100 file (99 ∷ []) used_index (second-Matches, tt)
