-- ===== src/Dwarf/Attrs.antt =====
-- dwarf/attrs.cc: the getters of attributes; and `compilation_unit::get_line_table` of dwarf/dwarf.cc.
pub mod Extent
use libelfin.Prelude.{
  ℕ, zero, suc, ◌+◌, Bool, true, false, not, ◌||◌, Option, none, some, List, [], ◌∷◌, if◌then◌else◌,
}
use libelfin.Result.{
  Error, Result, ok, err, undefined, format_error, runtime_error, depth_exceeded, unexpected_type,
  not_implemented, ◌>>=◌,
}
use libelfin.Word.{add64}
use libelfin.Dwarf.Section.{Section, SectionType, ByteOrder}
use libelfin.Dwarf.Attribute
use libelfin.Dwarf.Abbrev.{ValueType}
use libelfin.Dwarf.Units.{UnitImpl}
use libelfin.Dwarf.File.{Dwarf, get_section}
use libelfin.Dwarf.Machine.{Context, ExprResult, LocationType}
use libelfin.Dwarf.Expr.{evaluate}
use libelfin.Dwarf.Ranges.{Entry, RangeList, of_ranges}
use libelfin.Dwarf.Line.{Table}
use libelfin.Dwarf.Line.Header.{line_table}
use libelfin.Dwarf.Value.{
  Value, as_address, as_flag, as_uconstant, as_exprloc, as_string, as_sec_offset,
}
use libelfin.Dwarf.Die.{Die, has, lookup, as_reference, as_rangelist, root}

-- The getters that the macros AT_ADDRESS, AT_FLAG, AT_REFERENCE, AT_STRING and AT_ENUM define, at
-- an attribute.
unfoldable pub at_address : ℕ → Die → Result ℕ
at_address attr die = do v ← lookup die attr; as_address v

pub at_flag : ℕ → Die → Result Bool
at_flag attr die = do v ← lookup die attr; as_flag v

pub at_reference : ℕ → ℕ → Dwarf → Die → Result Die
at_reference attr limit d die = do v ← lookup die attr; as_reference limit d v

pub at_string : ℕ → Dwarf → Die → Result (List ℕ)
at_string attr d die = do v ← lookup die attr; as_string d v

pub at_enum : ℕ → Die → Result ℕ
at_enum attr die = do v ← lookup die attr; as_uconstant v

-- An address, or a number that is added to the low address.
abbrev pub high_of_type : ValueType → Die → Value → Result ℕ
high_of_type ValueType.address die v = as_address v
high_of_type ValueType.constant die v = do
  low ← at_address Attribute.low_pc die
  n ← as_uconstant v
  ok (add64 low n)
high_of_type ValueType.uconstant die v = do
  low ← at_address Attribute.low_pc die
  n ← as_uconstant v
  ok (add64 low n)
high_of_type _ die v = err (format_error (unexpected_type Attribute.high_pc))

-- `at_high_pc`
unfoldable pub at_high_pc : Die → Result ℕ
at_high_pc die = do v ← lookup die Attribute.high_pc; high_of_type v.type die v

-- An expression in the unit of a value, evaluated with rounds `fuel`.
abbrev pub evaluate_value : ℕ → Context → List ℕ → Value → Result ExprResult
evaluate_value fuel ctx arguments v = do
  (offset, len) ← as_exprloc v
  evaluate fuel ctx v.cu.subsec offset len arguments

-- The field `value` of a result, if an operation has set it.
abbrev pub value_field : Option ℕ → Result ℕ
value_field none = err undefined
value_field (some n) = ok n

abbrev pub udynamic_of_type :
    ValueType → ℕ → ℕ → Context → (Die → Result ℕ) → ℕ → Dwarf → Value → Result ℕ
udynamic_of_type ValueType.constant attr fuel ctx deeper limit d v = as_uconstant v
udynamic_of_type ValueType.uconstant attr fuel ctx deeper limit d v = as_uconstant v
udynamic_of_type ValueType.reference attr fuel ctx deeper limit d v = do
  die ← as_reference limit d v
  deeper die
udynamic_of_type ValueType.exprloc attr fuel ctx deeper limit d v = do
  r ← evaluate_value fuel ctx [] v
  value_field r.value
udynamic_of_type _ attr fuel ctx deeper limit d v = err (format_error (unexpected_type attr))

-- `_at_udynamic`: the last argument counts the references that may still be followed.
unfoldable pub udynamic : ℕ → ℕ → Context → ℕ → Dwarf → ℕ → Die → Result ℕ
udynamic attr fuel ctx limit d zero die = err (format_error (depth_exceeded attr))
udynamic attr fuel ctx limit d (suc left) die =
    let deeper = udynamic attr fuel ctx limit d left in
    (do v ← lookup die attr; udynamic_of_type v.type attr fuel ctx deeper limit d v)

-- `if (depth > 16)`, from depth 0 on
pub at_udynamic : ℕ → ℕ → Context → ℕ → Dwarf → Die → Result ℕ
at_udynamic attr fuel ctx limit d die = udynamic attr fuel ctx limit d 17 die

abbrev pub member_of_type : ValueType → ℕ → Context → ℕ → Value → Result ExprResult
member_of_type ValueType.constant fuel ctx base v = do
  n ← as_uconstant v
  ok (record {
    location_type = LocationType.address_;
    value = some (add64 base n);
    implicit = none;
    implicit_len = none;
  })
member_of_type ValueType.uconstant fuel ctx base v = do
  n ← as_uconstant v
  ok (record {
    location_type = LocationType.address_;
    value = some (add64 base n);
    implicit = none;
    implicit_len = none;
  })
member_of_type ValueType.exprloc fuel ctx base v = evaluate_value fuel ctx (base ∷ []) v
member_of_type ValueType.loclist fuel ctx base v =
    err (runtime_error (not_implemented Attribute.data_member_location))
member_of_type _ fuel ctx base v =
    err (format_error (unexpected_type Attribute.data_member_location))

-- `at_data_member_location`; the argument pc is not used.
pub at_data_member_location : ℕ → Context → ℕ → Die → Result ExprResult
at_data_member_location fuel ctx base die = do
  v ← lookup die Attribute.data_member_location
  member_of_type v.type fuel ctx base v

-- `at_ranges`
pub at_ranges : ℕ → Dwarf → Die → Result RangeList
at_ranges limit d die = do v ← lookup die Attribute.ranges; as_rangelist limit d v

abbrev pub pc_high : Die → ℕ → Result ℕ
pc_high die low = if has die Attribute.high_pc then at_high_pc die else ok (add64 low 1)

-- `die_pc_range`, on a machine of the order `host`
unfoldable pub die_pc_range : ByteOrder → ℕ → Dwarf → Die → Result RangeList
die_pc_range host limit d die = if has die Attribute.ranges then at_ranges limit d die else (do
  low ← at_address Attribute.low_pc die
  high ← pc_high die low
  ok (of_ranges host (record { low = low; high = high } ∷ [])))

-- `catch (format_error &e)`: without a section there is no table.
abbrev pub caught : Result (Section × Dwarf) → Result (Option Section)
caught (ok (s, d)) = ok (some s)
caught (err (format_error why)) = ok none
caught (err why) = err why

abbrev pub table_in : Option Section → ℕ → Dwarf → UnitImpl → Die → Result (Option Table)
table_in none fuel d cu die = ok none
table_in (some sec) fuel d cu die = do
  comp_dir ← if has die Attribute.comp_dir then at_string Attribute.comp_dir d die else ok []
  v ← lookup die Attribute.stmt_list
  off ← as_sec_offset v
  name ← at_string Attribute.name d die
  t ← line_table fuel sec off cu.subsec.addr_size comp_dir name
  ok (some t)

-- `compilation_unit::get_line_table`: `none` is the invalid table.
pub get_line_table : ℕ → ℕ → Dwarf → UnitImpl → Result (Option Table)
get_line_table fuel limit d cu = do
  die ← root limit d cu
  let found = (do sec ← caught (get_section SectionType.line d); table_in sec fuel d cu die)
  if not (has die Attribute.stmt_list) || not (has die Attribute.name) then ok none else found
