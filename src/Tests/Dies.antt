-- ===== src/Tests/Dies.antt =====
-- The entry of the file in Tests.Files: its values, its attributes and its children.
use libelfin.Prelude.{
  ltb, leb, ◌&&◌, ℕ, ◌+◌, ◌≡◌, refl, ◌≤◌, true, false, inl, some, none, [], ◌∷◌, arith,
}
use libelfin.Dwarf.Section.{lsb}
use libelfin.Result.{◌>>=◌, ok}
use libelfin.Dwarf.Cursor.{
  address, Cursor, cursor_at, fixed, ensure, fixed_lsb, read_byte, uleb128, uleb128_loop,
  scan_string, cstr,
}
use libelfin.Dwarf.Form.{Form, form_of}
use libelfin.Dwarf.Skip.{skip_form}
use libelfin.Dwarf.Attribute
use libelfin.Dwarf.Abbrev.{
  ValueType, AbbrevEntry, resolve_type, sec_offset_type, read_abbrev, read_attributes,
}
use libelfin.Dwarf.Abbrev.Table.{
  force_abbrevs, read_entries, store_entries, move_entries, put_entry, get_abbrev,
}
use libelfin.Dwarf.Units.{UnitImpl}
use libelfin.Dwarf.Value.{
  Value, make_value, resolve_indirect, skip_indirect, as_sec_offset, as_string, as_cstr, as_address,
  as_block, as_uconstant, as_sconstant, as_exprloc, as_flag, mismatch,
}
use libelfin.Dwarf.Value.Mismatch.{Readable, make_value-Readable, indirect_unreadable}
use libelfin.Dwarf.Die.{
  Die, die_of, abbrevs_of, read_attrs, read, has, has_in, lookup, find_attr, increment,
  as_reference, as_rangelist,
}
use libelfin.Dwarf.Die.Layout.{place_of, value_of_place, read-lookup}
use libelfin.Dwarf.Die.Siblings.{Spans, weight, parent, stop, Same, increment_lands}
use libelfin.Dwarf.Attrs.{die_pc_range}
use libelfin.Dwarf.Attrs.Extent.{offset_is, die_pc_range-contains}
use libelfin.Dwarf.Ranges.{contains}
use libelfin.Tests.Files.{file, unit}

abbrev entry : AbbrevEntry
entry = record {
  code = 1;
  tag = 0x11;
  children = true;
  attributes =
      record { name = 0x03; form = Form.string; type = ValueType.string }
      ∷ record { name = 0x55; form = Form.data4; type = ValueType.rangelist }
      ∷ [];
}

abbrev compile_unit : Die
compile_unit = record {
  cu = unit;
  abbrev_ = some entry;
  offset = 11;
  tag = 0x11;
  attrs = 12 ∷ 14 ∷ [];
  next = 18;
}

reads_compile_unit : read 100 file 11 (die_of unit) ≡ ok compile_unit
unfolding read abbrevs_of force_abbrevs read_entries store_entries move_entries put_entry get_abbrev
    read_attrs read_abbrev read_attributes resolve_type sec_offset_type form_of skip_form uleb128
    uleb128_loop scan_string read_byte fixed ensure fixed_lsb
reads_compile_unit = refl

abbrev ranges_value : Value
ranges_value = record { cu = unit; form = Form.data4; type = ValueType.rangelist; offset = 14 }

finds_ranges : lookup compile_unit Attribute.ranges ≡ ok ranges_value
unfolding lookup find_attr make_value resolve_indirect
finds_ranges = refl

finds_name :
    as_string file (record { cu = unit; form = Form.string; type = ValueType.string; offset = 12 })
    ≡ ok (97 ∷ [])
unfolding as_string as_cstr cstr scan_string read_byte
finds_name = refl

types_ranges : resolve_type 0x55 Form.data4 ≡ ok ValueType.rangelist
unfolding resolve_type sec_offset_type
types_ranges = refl

makes_ranges : make_value unit 0x55 Form.data4 ValueType.rangelist 14 ≡ ok ranges_value
unfolding make_value resolve_indirect
makes_ranges = refl

make_value-Readable_example : Readable 100 file ranges_value ValueType.rangelist
make_value-Readable_example =
    make_value-Readable 100 file unit 0x55 14 Form.data4 ValueType.rangelist ranges_value refl
      types_ranges makes_ranges

-- The byte at 11 is the code of the form addr.
abbrev indirect_value : Value
indirect_value = record { cu = unit; form = Form.indirect; type = ValueType.address; offset = 12 }

makes_indirect :
    make_value unit Attribute.low_pc Form.indirect ValueType.invalid 11 ≡ ok indirect_value
unfolding make_value resolve_indirect skip_indirect uleb128 uleb128_loop read_byte form_of
    resolve_type
makes_indirect = refl

indirect_unreadable_example :
    (as_address indirect_value ≡ mismatch)
    × (as_block indirect_value ≡ mismatch)
    × (as_uconstant indirect_value ≡ mismatch)
    × (as_sconstant indirect_value ≡ mismatch)
    × (as_exprloc indirect_value ≡ mismatch)
    × (as_flag indirect_value ≡ mismatch)
    × (as_cstr file indirect_value ≡ mismatch)
    × (as_string file indirect_value ≡ mismatch)
    × (as_sec_offset indirect_value ≡ mismatch)
    × (as_reference 100 file indirect_value ≡ mismatch)
    × (as_rangelist 100 file indirect_value ≡ mismatch)
indirect_unreadable_example =
    indirect_unreadable 100 file unit Attribute.low_pc 11 ValueType.invalid indirect_value
      makes_indirect

read-lookup_example :
    (code : ℕ) × (c : Cursor) × (uleb128 (cursor_at unit.subsec 11) ≡ ok (code, c))
    × ((attr : ℕ)
        → lookup compile_unit attr ≡ value_of_place unit (place_of attr entry.attributes c))
read-lookup_example =
    read-lookup 100 file 11 (die_of unit) compile_unit entry reads_compile_unit refl

-- The same entry without children, and the end of the list in which it stands.
abbrev longer : UnitImpl
longer = record unit {
  subsec = record unit.subsec {
    mem = 16 ∷ 0 ∷ 0 ∷ 0 ∷ 4 ∷ 0 ∷ 0 ∷ 0 ∷ 0 ∷ 0 ∷ 8 ∷ 1 ∷ 97 ∷ 0 ∷ 0 ∷ 0 ∷ 0 ∷ 0 ∷ 0 ∷ 0 ∷ [];
    end = 20;
  };
}

abbrev outer : Die
outer = record compile_unit { cu = longer }

abbrev end_at : ℕ → Die
end_at off = record {
  cu = longer;
  abbrev_ = none;
  offset = off;
  tag = 0;
  attrs = [];
  next = off + 1;
}

reads_outer : read 100 file 11 (die_of longer) ≡ ok outer
unfolding read abbrevs_of force_abbrevs read_entries store_entries move_entries put_entry get_abbrev
    read_attrs read_abbrev read_attributes resolve_type sec_offset_type form_of skip_form uleb128
    uleb128_loop scan_string read_byte fixed ensure fixed_lsb
reads_outer = refl

reads_end : read 100 file 18 (die_of longer) ≡ ok (end_at 18)
unfolding read uleb128 uleb128_loop read_byte
reads_end = refl

reads_behind : read 100 file 19 (die_of longer) ≡ ok (end_at 19)
unfolding read uleb128 uleb128_loop read_byte
reads_behind = refl

unlinked : has outer Attribute.sibling ≡ false
unfolding has has_in
unlinked = refl

abbrev tree : Spans 100 file longer false 11 19
tree = parent 11 19 outer entry reads_outer refl refl unlinked (stop 18 (end_at 18) reads_end refl)

tree-weight : weight 100 file longer false 11 19 tree ≤ 2
unfolding weight
tree-weight = omega arith

increment_lands_example : (x' : Die) × (increment 2 100 file outer ≡ ok x') × Same (end_at 19) x'
increment_lands_example =
    increment_lands 100 file longer 11 19 2 outer (end_at 19) tree tree-weight reads_outer
      reads_behind

-- An entry from 16 on, of 4 bytes.
abbrev subprogram : Die
subprogram = record {
  cu = record unit {
    subsec = record unit.subsec { mem = 16 ∷ 0 ∷ 0 ∷ 0 ∷ 0 ∷ 0 ∷ 0 ∷ 0 ∷ 4 ∷ []; end = 9 };
  };
  abbrev_ = some (record {
    code = 2;
    tag = 0x2e;
    children = false;
    attributes =
        record { name = 0x11; form = Form.addr; type = ValueType.address }
        ∷ record { name = 0x12; form = Form.data1; type = ValueType.constant }
        ∷ [];
  });
  offset = 0;
  tag = 0x2e;
  attrs = 0 ∷ 8 ∷ [];
  next = 9;
}

no_ranges : has subprogram Attribute.ranges ≡ false
unfolding has has_in
no_ranges = refl

abbrev high_value : Value
high_value = record { cu = subprogram.cu; form = Form.data1; type = ValueType.constant; offset = 8 }

abbrev low_value : Value
low_value = record { cu = subprogram.cu; form = Form.addr; type = ValueType.address; offset = 0 }

has_high : has subprogram Attribute.high_pc ≡ true
unfolding has has_in
has_high = refl

finds_high : lookup subprogram Attribute.high_pc ≡ ok high_value
unfolding lookup find_attr make_value resolve_indirect
finds_high = refl

finds_low : lookup subprogram Attribute.low_pc ≡ ok low_value
unfolding lookup find_attr make_value resolve_indirect
finds_low = refl

low_is : as_address low_value ≡ ok 16
unfolding as_address address fixed ensure fixed_lsb read_byte
low_is = refl

high_is : as_uconstant high_value ≡ ok 4
unfolding as_uconstant fixed ensure fixed_lsb read_byte
high_is = refl

die_pc_range-contains_example :
    (die_pc_range lsb 100 file subprogram >>= λ r. contains 2 3 r 19) ≡ ok (leb 16 19 && ltb 19 20)
die_pc_range-contains_example =
    die_pc_range-contains lsb 100 2 19 16 20 file subprogram low_value no_ranges finds_low low_is
      (offset_is 4 high_value has_high finds_high (inl refl) high_is) (omega arith)
