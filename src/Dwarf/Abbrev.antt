-- ===== src/Dwarf/Abbrev.antt =====
-- dwarf/abbrev.cc: `resolve_type`, attribute specifications and `abbrev_entry::read`. An attribute
-- or a tag is its code, cut to the width of an int by the cast.
pub mod Types
pub mod Read
pub mod Table
use libelfin.Prelude.{
  ℕ, zero, suc, ◌%◌, ◌^◌, Bool, true, false, ◌&&◌, List, [], ◌∷◌, leb, ◌==◌, if◌then◌else◌,
}
use libelfin.Result.{
  Result, ok, err, out_of_fuel, format_error, sec_offset_not_expected, unknown_attribute_form,
  ◌>>=◌,
}
use libelfin.Dwarf.Cursor.{Cursor, uleb128, fixed}
use libelfin.Dwarf.Form.{Form, form_code, form_of}
use libelfin.Dwarf.Attribute
use libelfin.Dwarf.Attribute.{any_of}

-- `value::type`
pub data ValueType : Type 0 where
  invalid address block constant uconstant sconstant exprloc flag line loclist mac : ValueType
  rangelist reference string : ValueType

-- The attributes whose blocks are expressions.
abbrev pub expression_attributes : List ℕ
expression_attributes =
    Attribute.location ∷ Attribute.byte_size ∷ Attribute.bit_offset ∷ Attribute.bit_size
    ∷ Attribute.string_length ∷ Attribute.lower_bound ∷ Attribute.return_addr ∷ Attribute.bit_stride
    ∷ Attribute.upper_bound ∷ Attribute.count ∷ Attribute.data_member_location
    ∷ Attribute.frame_base ∷ Attribute.segment ∷ Attribute.static_link ∷ Attribute.use_location
    ∷ Attribute.vtable_elem_location ∷ Attribute.allocated ∷ Attribute.associated
    ∷ Attribute.data_location ∷ Attribute.byte_stride ∷ []

-- The attributes whose data4 and data8 are section offsets.
abbrev pub offset_attributes : List ℕ
offset_attributes =
    Attribute.location ∷ Attribute.stmt_list ∷ Attribute.string_length ∷ Attribute.return_addr
    ∷ Attribute.start_scope ∷ Attribute.data_member_location ∷ Attribute.frame_base
    ∷ Attribute.macro_info ∷ Attribute.segment ∷ Attribute.static_link ∷ Attribute.use_location
    ∷ Attribute.vtable_elem_location ∷ Attribute.ranges ∷ []

abbrev pub loclist_attributes : List ℕ
loclist_attributes =
    Attribute.location ∷ Attribute.string_length ∷ Attribute.return_addr
    ∷ Attribute.data_member_location ∷ Attribute.frame_base ∷ Attribute.segment
    ∷ Attribute.static_link ∷ Attribute.use_location ∷ Attribute.vtable_elem_location ∷ []

-- `sec_offset:`
unfoldable pub sec_offset_type : ℕ → Result ValueType
sec_offset_type name =
    if name == Attribute.stmt_list
    then ok ValueType.line
    else if any_of name loclist_attributes
    then ok ValueType.loclist
    else if name == Attribute.macro_info
    then ok ValueType.mac
    else if any_of name (Attribute.start_scope ∷ Attribute.ranges ∷ [])
    then ok ValueType.rangelist
    else if leb Attribute.lo_user name && leb name Attribute.hi_user
    then ok ValueType.invalid
    else err (format_error (sec_offset_not_expected name))

abbrev pub block_type : ℕ → ValueType
block_type name = if any_of name expression_attributes then ValueType.exprloc else ValueType.block

-- data4 and data8
abbrev pub data_type : ℕ → Result ValueType
data_type name =
    if any_of name offset_attributes then sec_offset_type name else ok ValueType.constant

unfoldable pub resolve_type : ℕ → Form → Result ValueType
resolve_type name Form.addr = ok ValueType.address
resolve_type name Form.block = ok (block_type name)
resolve_type name Form.block1 = ok (block_type name)
resolve_type name Form.block2 = ok (block_type name)
resolve_type name Form.block4 = ok (block_type name)
resolve_type name Form.data4 = data_type name
resolve_type name Form.data8 = data_type name
resolve_type name Form.data1 = ok ValueType.constant
resolve_type name Form.data2 = ok ValueType.constant
resolve_type name Form.udata = ok ValueType.uconstant
resolve_type name Form.sdata = ok ValueType.sconstant
resolve_type name Form.exprloc = ok ValueType.exprloc
resolve_type name Form.flag = ok ValueType.flag
resolve_type name Form.flag_present = ok ValueType.flag
resolve_type name Form.ref1 = ok ValueType.reference
resolve_type name Form.ref2 = ok ValueType.reference
resolve_type name Form.ref4 = ok ValueType.reference
resolve_type name Form.ref8 = ok ValueType.reference
resolve_type name Form.ref_addr = ok ValueType.reference
resolve_type name Form.ref_sig8 = ok ValueType.reference
resolve_type name Form.ref_udata = ok ValueType.reference
resolve_type name Form.string = ok ValueType.string
resolve_type name Form.strp = ok ValueType.string
resolve_type name Form.indirect = ok ValueType.invalid
resolve_type name Form.sec_offset = sec_offset_type name
resolve_type name (Form.other v) = err (format_error (unknown_attribute_form v))

pub record AttributeSpec : Type 0 where
  pub name : ℕ
  pub form : Form
  pub type : ValueType

-- `attribute_spec(name, form)`
abbrev pub attribute_spec : ℕ → Form → Result AttributeSpec
attribute_spec name form = do
  type ← resolve_type name form
  ok (record { name = name; form = form; type = type })

pub record AbbrevEntry : Type 0 where
  pub code : ℕ
  pub tag : ℕ
  pub children : Bool
  pub attributes : List AttributeSpec

-- `(DW_AT)v` and `(DW_TAG)v`
abbrev pub to_int : ℕ → ℕ
to_int v = v % 2 ^ 32

-- `while (1)` over the attribute specifications.
unfoldable pub read_attributes : ℕ → Cursor → Result (List AttributeSpec × Cursor)
read_attributes zero c = err out_of_fuel
read_attributes (suc fuel) c = do
  (name, c1) ← uleb128 c
  (form, c2) ← uleb128 c1
  let further = do
    spec ← attribute_spec (to_int name) (form_of form)
    (specs, c3) ← read_attributes fuel c2
    ok (spec ∷ specs, c3)
  if to_int name == 0 && to_int form == 0 then ok ([], c2) else further

-- `abbrev_entry::read`: whether there is an entry, the entry and the cursor.
unfoldable pub read_abbrev : ℕ → AbbrevEntry → Cursor → Result (Bool × AbbrevEntry × Cursor)
read_abbrev fuel e c = do
  (code, c1) ← uleb128 c
  let entry = do
    (tag, c2) ← uleb128 c1
    (children, c3) ← fixed 1 c2
    (specs, c4) ← read_attributes fuel c3
    ok (
      true,
      record { code = code; tag = to_int tag; children = children == 1; attributes = specs },
      c4,
    )
  if code == 0 then ok (false, record e { code = 0; attributes = [] }, c1) else entry
