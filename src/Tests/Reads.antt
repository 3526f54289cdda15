-- ===== src/Tests/Reads.antt =====
-- The reads of the cursor.
use libelfin.Prelude.{ℕ, ◌^◌, ◌≤◌, ◌<◌, ◌≡◌, refl, ◌⊎◌, List, [], ◌∷◌, arith}
use libelfin.Result.{ok, err, underflow_error, Ends, undefined}
use libelfin.Dwarf.Section.{lsb, msb}
use libelfin.Dwarf.Cursor.{uleb128, uleb128_loop, read_byte, sleb128, fixed}
use libelfin.Dwarf.Cursor.Image.{InImage}
use libelfin.Dwarf.Cursor.Leb.{uleb128-leb_value}
use libelfin.Dwarf.Cursor.Sleb.{sleb128-sleb_value}
use libelfin.Dwarf.Cursor.Fixed.{fixed-order_value, fixed_cases}
use libelfin.Dwarf.Form.{Form, form_of}
use libelfin.Dwarf.Skip.{skip_form}
use libelfin.Dwarf.Skip.Extent.{reader, skip_form-reader}
use libelfin.Dwarf.Skip.Total.{skip_form-Ends}
use libelfin.Tests.Data.{section_of, cursor_in}

abbrev number : List ℕ
number = 0xe5 ∷ 0x8e ∷ 0x26 ∷ []

number-InImage : InImage (section_of lsb number)
number-InImage = omega arith

uleb128-leb_value_example : uleb128 (cursor_in lsb number 0) ≡ ok (624485, cursor_in lsb number 3)
uleb128-leb_value_example =
    uleb128-leb_value (cursor_in lsb number 0) number (omega arith) (refl, (refl, (refl, tt)))
      (omega arith) (omega arith)

-- -624485 as an int64_t
abbrev negative_number : List ℕ
negative_number = 0x9b ∷ 0xf1 ∷ 0x59 ∷ []

sleb128-sleb_value_example :
    sleb128 (cursor_in lsb negative_number 0)
    ≡ ok (0xffff_ffff_fff6_789b, cursor_in lsb negative_number 3)
sleb128-sleb_value_example =
    sleb128-sleb_value (cursor_in lsb negative_number 0) negative_number (omega arith)
      (refl, (refl, (refl, tt))) (omega arith) (omega arith)

fixed-order_value_example : fixed 3 (cursor_in msb number 0) ≡ ok (0xe58e26, cursor_in msb number 3)
fixed-order_value_example =
    fixed-order_value (cursor_in msb number 0) number (omega arith) (refl, (refl, (refl, tt)))
      (omega arith) (omega arith) (omega arith) (omega arith)

fixed_cases_example :
    ((v : ℕ) × (fixed 4 (cursor_in lsb number 1) ≡ ok (v, cursor_in lsb number 5))
      × (v < 2 ^ 32)
      × (5 ≤ 3))
    ⊎ ((fixed 4 (cursor_in lsb number 1) ≡ err underflow_error) × (3 < 5))
fixed_cases_example =
    fixed_cases 4 (cursor_in lsb number 1) number-InImage (omega arith) (omega arith)

-- An indirect form: DW_FORM_udata, then the number.
abbrev indirect_number : List ℕ
indirect_number = 0x0f ∷ 0xe5 ∷ 0x8e ∷ 0x26 ∷ []

indirect-InImage : InImage (section_of lsb indirect_number)
indirect-InImage = omega arith

reads_indirect :
    reader Form.indirect 2 (cursor_in lsb indirect_number 0) ≡ ok (cursor_in lsb indirect_number 4)
unfolding reader uleb128 uleb128_loop read_byte form_of
reads_indirect = refl

skip_form-reader_example :
    skip_form Form.indirect 2 (cursor_in lsb indirect_number 0)
    ≡ ok (cursor_in lsb indirect_number 4)
skip_form-reader_example =
    skip_form-reader Form.indirect 2 (cursor_in lsb indirect_number 0) indirect-InImage
      reads_indirect

skip_form-Ends_example : Ends (skip_form Form.indirect 5 (cursor_in lsb indirect_number 0))
skip_form-Ends_example =
    skip_form-Ends Form.indirect 5 (cursor_in lsb indirect_number 0) (omega arith)

-- Eleven bytes that stand for 0: the eleventh would be shifted by 70.
abbrev padded_zero : List ℕ
padded_zero = 0x80 ∷ 0x80 ∷ 0x80 ∷ 0x80 ∷ 0x80 ∷ 0x80 ∷ 0x80 ∷ 0x80 ∷ 0x80 ∷ 0x80 ∷ 0x00 ∷ []

shifts_too_far : uleb128 (cursor_in lsb padded_zero 0) ≡ err undefined
unfolding uleb128 uleb128_loop read_byte
shifts_too_far = refl
