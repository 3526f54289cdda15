-- ===== src/Dwarf/Skip.antt =====
-- dwarf/cursor.cc: `cursor::skip_form`.
pub mod Extent
pub mod Total
use libelfin.Prelude.{ℕ, zero, suc, ◌+◌, ◌-◌, List, bit_and, ◌==◌, if◌then◌else◌}
use libelfin.Result.{
  Result, ok, err, out_of_fuel, format_error, logic_error, unknown_form, unknown_format, ◌>>=◌,
}
use libelfin.Dwarf.Section.{Format, unknown, dwarf32, dwarf64, ptr_add}
use libelfin.Dwarf.Cursor.{Cursor, advance, read_byte, fixed, uleb128, scan_string}
use libelfin.Dwarf.Form.{Form, form_code, form_of}

-- `while (pos < sec->end && (*(uint8_t*)pos & 0x80)) pos++;`
unfoldable pub scan_leb : ℕ → List ℕ → ℕ → Result ℕ
scan_leb zero mem pos = ok pos
scan_leb (suc n) mem pos = do
  b ← read_byte mem pos
  let further = scan_leb n mem (pos + 1)
  if bit_and b 0x80 == 0 then ok pos else further

abbrev pub offset_size : Format → Result ℕ
offset_size dwarf32 = ok 4
offset_size dwarf64 = ok 8
offset_size unknown = err (logic_error unknown_format)

abbrev pub skip_offset : Cursor → Result Cursor
skip_offset c = do n ← offset_size c.sec.fmt; ok (advance n c)

-- `tmp = …; pos += tmp;`
abbrev pub skip_sized : Result (ℕ × Cursor) → Result Cursor
skip_sized r = do (n, c) ← r; ok (advance n c)

-- The loop over a LEB128 number or a text, and `pos++` behind it.
abbrev pub skip_leb : Cursor → Result Cursor
skip_leb c = do
  p ← scan_leb (c.sec.end - c.pos) c.sec.mem c.pos
  ok (record c { pos = ptr_add p 1 })

abbrev pub skip_string : Cursor → Result Cursor
skip_string c = do
  p ← scan_string (c.sec.end - c.pos) c.sec.mem c.pos
  ok (record c { pos = ptr_add p 1 })

-- The number bounds the calls that `indirect` makes. `ref8` has no case in the switch.
unfoldable pub skip_form : Form → ℕ → Cursor → Result Cursor
skip_form Form.addr fuel c = ok (advance c.sec.addr_size c)
skip_form Form.sec_offset fuel c = skip_offset c
skip_form Form.ref_addr fuel c = skip_offset c
skip_form Form.strp fuel c = skip_offset c
skip_form Form.block1 fuel c = skip_sized (fixed 1 c)
skip_form Form.block2 fuel c = skip_sized (fixed 2 c)
skip_form Form.block4 fuel c = skip_sized (fixed 4 c)
skip_form Form.block fuel c = skip_sized (uleb128 c)
skip_form Form.exprloc fuel c = skip_sized (uleb128 c)
skip_form Form.flag_present fuel c = ok c
skip_form Form.flag fuel c = ok (advance 1 c)
skip_form Form.data1 fuel c = ok (advance 1 c)
skip_form Form.ref1 fuel c = ok (advance 1 c)
skip_form Form.data2 fuel c = ok (advance 2 c)
skip_form Form.ref2 fuel c = ok (advance 2 c)
skip_form Form.data4 fuel c = ok (advance 4 c)
skip_form Form.ref4 fuel c = ok (advance 4 c)
skip_form Form.data8 fuel c = ok (advance 8 c)
skip_form Form.ref_sig8 fuel c = ok (advance 8 c)
skip_form Form.sdata fuel c = skip_leb c
skip_form Form.udata fuel c = skip_leb c
skip_form Form.ref_udata fuel c = skip_leb c
skip_form Form.string fuel c = skip_string c
skip_form Form.indirect zero c = err out_of_fuel
skip_form Form.indirect (suc fuel) c = do (v, c') ← uleb128 c; skip_form (form_of v) fuel c'
skip_form Form.ref8 fuel c = err (format_error (unknown_form 0x14))
skip_form (Form.other v) fuel c = err (format_error (unknown_form v))
