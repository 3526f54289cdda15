-- ===== src/Dwarf/Value.antt =====
-- dwarf/value.cc: attribute values and their accessors, up to those that make a DIE.
pub mod Fits
pub mod Entries
pub mod References
pub mod Mismatch
use libelfin.Prelude.{
  ℕ, zero, suc, ◌+◌, ◌-◌, Bool, true, false, Option, none, some, List, [], ◌∷◌, take, drop, ◌==◌,
  if◌then◌else◌,
}
use libelfin.Result.{Result, ok, err, out_of_fuel, type_mismatch, wrong_value_form, ◌>>=◌, ◌>>◌}
use libelfin.Word.{add64}
use libelfin.Dwarf.Section.{Section, SectionType}
use libelfin.Dwarf.Cursor.{
  Cursor, cursor_at, get_section_offset, ensure, fixed, fixed_signed, uleb128, sleb128, address,
  offset, cstr,
}
use libelfin.Dwarf.Form.{Form, form_of}
use libelfin.Dwarf.Abbrev.{ValueType, AttributeSpec, attribute_spec}
use libelfin.Dwarf.Units.{UnitImpl}
use libelfin.Dwarf.File.{Dwarf, get_section}

pub record Value : Type 0 where
  pub cu : UnitImpl
  pub form : Form
  pub type : ValueType
  pub offset : ℕ

-- `cursor cur(cu->data(), offset)`
abbrev pub value_cursor : Value → Cursor
value_cursor v = cursor_at v.cu.subsec v.offset

abbrev pub mismatch {ℓ} : {A : Type ℓ} → Result A
mismatch = err (type_mismatch wrong_value_form)

abbrev pub is_indirect : Form → Bool
is_indirect Form.indirect = true
is_indirect _ = false

-- `do { form = (DW_FORM)c.uleb128(); } while (form == DW_FORM::indirect);`
unfoldable pub skip_indirect : ℕ → Cursor → Result (Form × Cursor)
skip_indirect zero c = err out_of_fuel
skip_indirect (suc n) c = do
  (code, c') ← uleb128 c
  let further = skip_indirect n c'
  if is_indirect (form_of code) then further else ok (form_of code, c')

-- The form that is found stays in a local variable: the value keeps the form `indirect`.
unfoldable pub resolve_indirect : ℕ → Value → Result Value
resolve_indirect name v =
    if is_indirect v.form
    then (do
      (form, c) ← skip_indirect (suc (v.cu.subsec.end - (value_cursor v).pos)) (value_cursor v)
      spec ← attribute_spec name form
      ok (record v { type = spec.type; offset = get_section_offset c }))
    else ok v

-- `value(cu, name, form, typ, offset)`
unfoldable pub make_value : UnitImpl → ℕ → Form → ValueType → ℕ → Result Value
make_value cu name form type offset =
    resolve_indirect name (record { cu = cu; form = form; type = type; offset = offset })

-- `value::get_section_offset`
abbrev pub value_section_offset : Value → ℕ
value_section_offset v = add64 v.cu.offset v.offset

-- What is read, without the cursor behind it.
abbrev pub just : Result (ℕ × Cursor) → Result ℕ
just r = do (x, c) ← r; ok x

abbrev pub address_of_form : Form → Cursor → Result ℕ
address_of_form Form.addr cur = just (address cur)
address_of_form _ cur = mismatch

unfoldable pub as_address : Value → Result ℕ
as_address v = address_of_form v.form (value_cursor v)

-- The size of a block or of an expression.
abbrev pub block_size : Form → Cursor → Result (ℕ × Cursor)
block_size Form.block1 cur = fixed 1 cur
block_size Form.block2 cur = fixed 2 cur
block_size Form.block4 cur = fixed 4 cur
block_size Form.block cur = uleb128 cur
block_size Form.exprloc cur = uleb128 cur
block_size _ cur = mismatch

-- The size and the pointer.
unfoldable pub as_block : Value → Result (ℕ × ℕ)
as_block v = do
  (size, cur) ← block_size v.form (value_cursor v)
  ensure size cur
  ok (size, cur.pos)

abbrev pub uconstant_of_form : Form → Cursor → Result ℕ
uconstant_of_form Form.data1 cur = just (fixed 1 cur)
uconstant_of_form Form.data2 cur = just (fixed 2 cur)
uconstant_of_form Form.data4 cur = just (fixed 4 cur)
uconstant_of_form Form.data8 cur = just (fixed 8 cur)
uconstant_of_form Form.udata cur = just (uleb128 cur)
uconstant_of_form _ cur = mismatch

unfoldable pub as_uconstant : Value → Result ℕ
as_uconstant v = uconstant_of_form v.form (value_cursor v)

abbrev pub sconstant_of_form : Form → Cursor → Result ℕ
sconstant_of_form Form.data1 cur = just (fixed_signed 1 cur)
sconstant_of_form Form.data2 cur = just (fixed_signed 2 cur)
sconstant_of_form Form.data4 cur = just (fixed_signed 4 cur)
sconstant_of_form Form.data8 cur = just (fixed_signed 8 cur)
sconstant_of_form Form.sdata cur = just (sleb128 cur)
sconstant_of_form _ cur = mismatch

-- The int64_t as a pattern of 64 bits.
unfoldable pub as_sconstant : Value → Result ℕ
as_sconstant v = sconstant_of_form v.form (value_cursor v)

-- The offset of the expression in the unit, and its length.
unfoldable pub as_exprloc : Value → Result (ℕ × ℕ)
as_exprloc v = do
  (size, cur) ← block_size v.form (value_cursor v)
  ok (get_section_offset cur, size)

abbrev pub flag_of_form : Form → Cursor → Result Bool
flag_of_form Form.flag cur = do (x, c) ← fixed 1 cur; ok (if x == 0 then false else true)
flag_of_form Form.flag_present cur = ok true
flag_of_form _ cur = mismatch

unfoldable pub as_flag : Value → Result Bool
as_flag v = flag_of_form v.form (value_cursor v)

-- A text: the memory, the pointer and the size.
abbrev pub text_at : Cursor → Result (List ℕ × ℕ × ℕ)
text_at cur = do (p, n, c) ← cstr cur; ok (cur.sec.mem, p, n)

abbrev pub cstr_of_form : Form → Dwarf → Cursor → Result (List ℕ × ℕ × ℕ)
cstr_of_form Form.string d cur = text_at cur
cstr_of_form Form.strp d cur = do
  (off, c) ← offset cur
  (sec, d') ← get_section SectionType.str d
  text_at (cursor_at sec off)
cstr_of_form _ d cur = mismatch

unfoldable pub as_cstr : Dwarf → Value → Result (List ℕ × ℕ × ℕ)
as_cstr d v = cstr_of_form v.form d (value_cursor v)

unfoldable pub as_string : Dwarf → Value → Result (List ℕ)
as_string d v = do (mem, p, n) ← as_cstr d v; ok (take n (drop p mem))

abbrev pub sec_offset_of_form : Form → Cursor → Result ℕ
sec_offset_of_form Form.data4 cur = just (fixed 4 cur)
sec_offset_of_form Form.data8 cur = just (fixed 8 cur)
sec_offset_of_form Form.sec_offset cur = just (offset cur)
sec_offset_of_form _ cur = mismatch

unfoldable pub as_sec_offset : Value → Result ℕ
as_sec_offset v = sec_offset_of_form v.form (value_cursor v)
