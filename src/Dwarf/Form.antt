-- ===== src/Dwarf/Form.antt =====
-- dwarf/data.hh: `DW_FORM`, and the cast of a number to it.
use libelfin.Prelude.{ℕ, ◌%◌, ◌^◌, List, [], ◌∷◌, ◌==◌, if◌then◌else◌}

-- `other` stands for the values of the type that have no name.
pub data Form : Type 0 where
  addr block2 block4 data2 data4 data8 string block block1 data1 flag sdata strp udata : Form
  ref_addr ref1 ref2 ref4 ref8 ref_udata indirect sec_offset exprloc flag_present ref_sig8 : Form
  other : ℕ → Form

unfoldable pub form_code : Form → ℕ
form_code addr = 0x01
form_code block2 = 0x03
form_code block4 = 0x04
form_code data2 = 0x05
form_code data4 = 0x06
form_code data8 = 0x07
form_code string = 0x08
form_code block = 0x09
form_code block1 = 0x0a
form_code data1 = 0x0b
form_code flag = 0x0c
form_code sdata = 0x0d
form_code strp = 0x0e
form_code udata = 0x0f
form_code ref_addr = 0x10
form_code ref1 = 0x11
form_code ref2 = 0x12
form_code ref4 = 0x13
form_code ref8 = 0x14
form_code ref_udata = 0x15
form_code indirect = 0x16
form_code sec_offset = 0x17
form_code exprloc = 0x18
form_code flag_present = 0x19
form_code ref_sig8 = 0x20
form_code (other v) = v

abbrev pub named_forms : List Form
named_forms =
    addr ∷ block2 ∷ block4 ∷ data2 ∷ data4 ∷ data8 ∷ string ∷ block ∷ block1 ∷ data1 ∷ flag ∷ sdata
    ∷ strp ∷ udata ∷ ref_addr ∷ ref1 ∷ ref2 ∷ ref4 ∷ ref8 ∷ ref_udata ∷ indirect ∷ sec_offset
    ∷ exprloc ∷ flag_present ∷ ref_sig8 ∷ []

unfoldable pub find_form : ℕ → List Form → Form
unfolding form_code
find_form v [] = other v
find_form v (f ∷ fs) = let later = find_form v fs in if form_code f == v then f else later

-- `(DW_FORM)v` for a uint64_t v: the enumeration has the width of an int.
unfoldable pub form_of : ℕ → Form
unfolding find_form
form_of v = find_form (v % 2 ^ 32) named_forms
