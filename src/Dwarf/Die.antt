-- ===== src/Dwarf/Die.antt =====
-- dwarf/die.cc and dwarf/value.cc: debug information entries, references to them, and the values
-- that need them. The first argument of a function that reads a DIE is the largest vector that the
-- allocator grants.
pub mod Layout
pub mod Siblings
use libelfin.Prelude.{
  ℕ, zero, suc, ◌+◌, ◌-◌, Bool, true, false, not, Option, none, some, List, [], ◌∷◌, ltb, ◌==◌,
  if◌then◌else◌, get_elem?,
}
use libelfin.Result.{
  Result, ok, err, undefined, out_of_fuel, out_of_range, format_error, no_attribute,
  unknown_type_signature, ◌>>=◌,
}
use libelfin.Word.{add64, sub64}
use libelfin.Dwarf.Section.{SectionType}
use libelfin.Dwarf.Cursor.{Cursor, cursor_at, get_section_offset, to_byte, fixed, uleb128, offset}
use libelfin.Dwarf.Form.{Form}
use libelfin.Dwarf.Skip.{skip_form}
use libelfin.Dwarf.Attribute
use libelfin.Dwarf.Abbrev.{AttributeSpec, AbbrevEntry}
use libelfin.Dwarf.Abbrev.Table.{AbbrevTable, force_abbrevs, get_abbrev}
use libelfin.Dwarf.Units.{UnitImpl}
use libelfin.Dwarf.File.{Loaded, Dwarf, get_section, get_type_unit}
use libelfin.Dwarf.Ranges.{RangeList, range_list}
use libelfin.Dwarf.Value.{Value, make_value, value_cursor, mismatch, as_address, as_sec_offset}

-- An entry without an abbreviation ends a list of siblings.
pub record Die : Type 0 where
  pub cu : UnitImpl
  pub abbrev_ : Option AbbrevEntry
  pub offset : ℕ
  pub tag : ℕ
  pub attrs : List ℕ
  pub next : ℕ

-- `die(cu)`: the numbers are not set before the first `read`.
abbrev pub die_of : UnitImpl → Die
die_of cu = record { cu = cu; abbrev_ = none; offset = 0; tag = 0; attrs = []; next = 0 }

-- The table of the unit. The code makes it once and keeps it.
unfoldable pub abbrevs_of : ℕ → Dwarf → UnitImpl → Result AbbrevTable
abbrevs_of limit d cu =
    let rounds = suc d.sec_abbrev.end in
    force_abbrevs limit rounds rounds d.sec_abbrev cu.debug_abbrev_offset

-- `attrs.push_back(cur.get_section_offset()); cur.skip_form(attr.form);`
unfoldable pub read_attrs : List AttributeSpec → Cursor → Result (List ℕ × Cursor)
read_attrs [] cur = ok ([], cur)
read_attrs (a ∷ later) cur = do
  cur' ← skip_form a.form (suc (cur.sec.end - cur.pos)) cur
  (offsets, last) ← read_attrs later cur'
  ok (get_section_offset cur ∷ offsets, last)

-- `die::read`
unfoldable pub read : ℕ → Dwarf → ℕ → Die → Result Die
read limit d off die = do
  (acode, cur) ← uleb128 (cursor_at die.cu.subsec off)
  let entry = (do
    t ← abbrevs_of limit d die.cu
    a ← get_abbrev t acode
    (attrs, cur') ← read_attrs a.attributes cur
    ok (record die {
      offset = off;
      abbrev_ = some a;
      tag = a.tag;
      attrs = attrs;
      next = get_section_offset cur';
    }))
  if acode == 0
      then ok (record die { offset = off; abbrev_ = none; next = get_section_offset cur })
      else entry

-- `die::get_section_offset`
abbrev pub die_section_offset : Die → ℕ
die_section_offset die = add64 die.cu.offset die.offset

unfoldable pub has_in : ℕ → List AttributeSpec → Bool
has_in attr [] = false
has_in attr (a ∷ later) = if a.name == attr then true else has_in attr later

abbrev pub specs_of : Option AbbrevEntry → List AttributeSpec
specs_of none = []
specs_of (some a) = a.attributes

-- `die::has`
unfoldable pub has : Die → ℕ → Bool
has die attr = has_in attr (specs_of die.abbrev_)

-- `value(cu, a.name, a.form, a.type, attrs[i])`
abbrev pub value_at : Die → AttributeSpec → ℕ → Result Value
value_at die a i = do
  off ← to_byte (get_elem? die.attrs i)
  make_value die.cu a.name a.form a.type off

unfoldable pub find_attr : Die → ℕ → ℕ → List AttributeSpec → Result Value
find_attr die attr i [] = err (out_of_range (no_attribute attr))
find_attr die attr i (a ∷ later) =
    if a.name == attr then value_at die a i else find_attr die attr (i + 1) later

-- `die::operator[]`
unfoldable pub lookup : Die → ℕ → Result Value
lookup die attr = find_attr die attr 0 (specs_of die.abbrev_)

unfoldable pub all_attrs : Die → ℕ → List AttributeSpec → Result (List (ℕ × Value))
all_attrs die i [] = ok []
all_attrs die i (a ∷ later) = do
  v ← value_at die a i
  rest ← all_attrs die (i + 1) later
  ok ((a.name, v) ∷ rest)

-- `die::attributes`
unfoldable pub attributes : Die → Result (List (ℕ × Value))
attributes die = all_attrs die 0 (specs_of die.abbrev_)

-- `unit::root` and `type_unit::type`, which make the table of the unit first.
unfoldable pub root : ℕ → Dwarf → UnitImpl → Result Die
root limit d cu = do table ← abbrevs_of limit d cu; read limit d cu.root_offset (die_of cu)

unfoldable pub type_die : ℕ → Dwarf → UnitImpl → Result Die
type_die limit d cu = do table ← abbrevs_of limit d cu; read limit d cu.type_offset (die_of cu)

-- The last unit before the first that begins behind the offset.
unfoldable pub find_base : Option UnitImpl → ℕ → List UnitImpl → Option UnitImpl
find_base base off [] = base
find_base base off (u ∷ us) = if ltb off u.offset then base else find_base (some u) off us

-- Without such a unit, a null pointer is followed.
abbrev pub read_in : ℕ → Dwarf → ℕ → Option UnitImpl → Result Die
read_in limit d off none = err undefined
read_in limit d off (some base) = read limit d (sub64 off base.offset) (die_of base)

abbrev pub rounds_for : Option Loaded → ℕ
rounds_for none = 1
rounds_for (some x) = suc (x.ptr + x.size)

-- `catch (std::out_of_range &e)`
abbrev pub rethrow : ℕ → Result Die → Result Die
rethrow sig (ok die) = ok die
rethrow sig (err (out_of_range why)) = err (format_error (unknown_type_signature sig))
rethrow sig (err why) = err why

abbrev pub by_signature : ℕ → Dwarf → ℕ → Result Die
by_signature limit d sig =
    rethrow sig
      (do (tu, d') ← get_type_unit (rounds_for (d.l SectionType.types)) sig d; type_die limit d' tu)

abbrev pub in_unit : ℕ → Dwarf → UnitImpl → Result (ℕ × Cursor) → Result Die
in_unit limit d cu r = do (off, c) ← r; read limit d off (die_of cu)

abbrev pub reference_of_form : Form → ℕ → Dwarf → UnitImpl → Cursor → Result Die
reference_of_form Form.ref1 limit d cu cur = in_unit limit d cu (fixed 1 cur)
reference_of_form Form.ref2 limit d cu cur = in_unit limit d cu (fixed 2 cur)
reference_of_form Form.ref4 limit d cu cur = in_unit limit d cu (fixed 4 cur)
reference_of_form Form.ref8 limit d cu cur = in_unit limit d cu (fixed 8 cur)
reference_of_form Form.ref_udata limit d cu cur = in_unit limit d cu (uleb128 cur)
reference_of_form Form.ref_addr limit d cu cur = do
  (off, c) ← offset cur
  read_in limit d off (find_base none off d.compilation_units)
reference_of_form Form.ref_sig8 limit d cu cur = do (sig, c) ← fixed 8 cur; by_signature limit d sig
reference_of_form _ limit d cu cur = mismatch

-- `value::as_reference`
unfoldable pub as_reference : ℕ → Dwarf → Value → Result Die
as_reference limit d v = reference_of_form v.form limit d v.cu (value_cursor v)

-- `at_low_pc` of the unit's root, or 0.
abbrev pub low_pc_of : Die → Result ℕ
low_pc_of die =
    if has die Attribute.low_pc then (do v ← lookup die Attribute.low_pc; as_address v) else ok 0

-- `value::as_rangelist`
unfoldable pub as_rangelist : ℕ → Dwarf → Value → Result RangeList
as_rangelist limit d v = do
  off ← as_sec_offset v
  cudie ← root limit d v.cu
  cu_low_pc ← low_pc_of cudie
  (sec, d') ← get_section SectionType.ranges d
  ok (range_list sec off v.cu.subsec.addr_size cu_low_pc)

-- What `resolve` finds at a DIE that a reference leads to: `none` is the invalid value.
abbrev pub own : Die → ℕ → Result (Option Value) → Result (Option Value)
own die attr otherwise = if has die attr then (do v ← lookup die attr; ok (some v)) else otherwise

abbrev pub follow : ℕ → Dwarf → Die → ℕ → Result Die
follow limit d die link = do v ← lookup die link; as_reference limit d v

abbrev pub by_specification : ℕ → Dwarf → Die → ℕ → Result (Option Value)
by_specification limit d die attr =
    if has die Attribute.specification
    then (do s ← follow limit d die Attribute.specification; own s attr (ok none))
    else ok none

-- `die::resolve`
unfoldable pub resolve : ℕ → Dwarf → Die → ℕ → Result (Option Value)
resolve limit d die attr = own die attr (
    if has die Attribute.abstract_origin
    then (do
      ao ← follow limit d die Attribute.abstract_origin
      own ao attr (by_specification limit d ao attr))
    else by_specification limit d die attr)

-- `die::begin`: the end is an entry without abbreviation.
abbrev pub first_child : ℕ → Dwarf → Die → Option AbbrevEntry → Result Die
first_child limit d die none = ok (die_of die.cu)
first_child limit d die (some a) =
    if a.children then read limit d die.next (die_of die.cu) else ok (die_of die.cu)

unfoldable pub begin : ℕ → Dwarf → Die → Result Die
begin limit d die = first_child limit d die die.abbrev_

abbrev pub is_end : Die → Bool
is_end die = ends die.abbrev_
  where
    ends : Option AbbrevEntry → Bool
    ends none = true
    ends (some a) = false

-- The four cases of `operator++`.
abbrev pub step_over : ℕ → Dwarf → Die → Result Die → Option AbbrevEntry → Result Die
step_over limit d die past_children none = ok die
step_over limit d die past_children (some a) =
    if not a.children
    then read limit d die.next die
    else if has die Attribute.sibling
    then follow limit d die Attribute.sibling
    else past_children

-- `operator++`, and the loop over the children behind which the next sibling stands: a flag tells
-- them apart, so that one recursion on fuel serves both.
unfoldable pub walk : ℕ → Bool → ℕ → Dwarf → Die → Result Die
walk zero over_children limit d die = err out_of_fuel
walk (suc fuel) true limit d sub =
    let further = (do sub' ← walk fuel false limit d sub; walk fuel true limit d sub') in
    if is_end sub then ok sub else further
walk (suc fuel) false limit d die =
    let past_children = (do
      sub ← read limit d die.next (die_of die.cu)
      last ← walk fuel true limit d sub
      read limit d last.next die) in
    step_over limit d die past_children die.abbrev_

-- `die::iterator::operator++`
unfoldable pub increment : ℕ → ℕ → Dwarf → Die → Result Die
increment fuel limit d die = walk fuel false limit d die
