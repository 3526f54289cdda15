-- ===== src/Dwarf/Skip/Total.antt =====
-- `cursor::skip_form` returns on every input: each indirection takes a byte of the section.
use libelfin.Prelude.{ℕ, zero, suc, ◌+◌, ◌-◌, ◌<◌, ap, List, arith, ◌==◌, bit_and}
use libelfin.Result.{Result, ok, Ends, bind-Ends, ok-Ends, ◌>>=◌}
use libelfin.Dwarf.Section.{Section, Format, unknown, dwarf32, dwarf64}
use libelfin.Dwarf.Cursor.{Cursor, advance, read_byte, fixed, uleb128, scan_string}
use libelfin.Dwarf.Cursor.Ends.{read_byte-Ends, fixed-Ends, uleb128-Ends, scan_string-Ends, if-Ends}
use libelfin.Dwarf.Cursor.Progress.{uleb128-Forward}
use libelfin.Dwarf.Form.{Form, form_of}
use libelfin.Dwarf.Skip.{scan_leb, skip_form, offset_size}

scan_leb-Ends : (n : ℕ) (mem : List ℕ) (p : ℕ) → Ends (scan_leb n mem p)
unfolding scan_leb
scan_leb-Ends zero mem p = λ e. cc
scan_leb-Ends (suc n) mem p =
    bind-Ends (read_byte mem p) _ (read_byte-Ends mem p)
      λ b e. if-Ends (bit_and b 0x80 == 0) _ _ (ok-Ends _) (scan_leb-Ends n mem (p + 1))

sized-Ends : (r : Result (ℕ × Cursor)) → Ends r → Ends (do (n, c) ← r; ok (advance n c))
sized-Ends r h = bind-Ends r _ h λ a e. ok-Ends _

offset_size-Ends : (f : Format) (c : Cursor) → Ends (do n ← offset_size f; ok (advance n c))
offset_size-Ends dwarf32 c = λ e. cc
offset_size-Ends dwarf64 c = λ e. cc
offset_size-Ends unknown c = λ e. cc

leb-Ends :
    (c : Cursor) (g : ℕ → Cursor)
    → Ends (do p ← scan_leb (c.sec.end - c.pos) c.sec.mem c.pos; ok (g p))
leb-Ends c g = bind-Ends _ _ (scan_leb-Ends (c.sec.end - c.pos) c.sec.mem c.pos) λ a e. ok-Ends _

text-Ends :
    (c : Cursor) (g : ℕ → Cursor)
    → Ends (do p ← scan_string (c.sec.end - c.pos) c.sec.mem c.pos; ok (g p))
text-Ends c g =
    bind-Ends _ _ (scan_string-Ends (c.sec.end - c.pos) c.sec.mem c.pos) λ a e. ok-Ends _

-- More rounds than bytes up to the end of the section are enough for every form.
pub skip_form-Ends :
    (f : Form) (fuel : ℕ) (c : Cursor) → c.sec.end - c.pos < fuel → Ends (skip_form f fuel c)
unfolding skip_form
skip_form-Ends Form.indirect zero c h = absurd (omega arith)
skip_form-Ends Form.indirect (suc fuel) c h = bind-Ends (uleb128 c) _ (uleb128-Ends c) λ a e.
    let f = (uleb128-Forward c {v = a.0} {c' = a.1} e).0 in
    skip_form-Ends (form_of a.0) fuel a.1
      (omega (arith, f.later, f.inside, ap (λ (s : Section). s.end) f.same_section))
skip_form-Ends Form.sec_offset fuel c h = offset_size-Ends c.sec.fmt c
skip_form-Ends Form.ref_addr fuel c h = offset_size-Ends c.sec.fmt c
skip_form-Ends Form.strp fuel c h = offset_size-Ends c.sec.fmt c
skip_form-Ends Form.block1 fuel c h = sized-Ends (fixed 1 c) (fixed-Ends 1 c)
skip_form-Ends Form.block2 fuel c h = sized-Ends (fixed 2 c) (fixed-Ends 2 c)
skip_form-Ends Form.block4 fuel c h = sized-Ends (fixed 4 c) (fixed-Ends 4 c)
skip_form-Ends Form.block fuel c h = sized-Ends (uleb128 c) (uleb128-Ends c)
skip_form-Ends Form.exprloc fuel c h = sized-Ends (uleb128 c) (uleb128-Ends c)
skip_form-Ends Form.sdata fuel c h = leb-Ends c _
skip_form-Ends Form.udata fuel c h = leb-Ends c _
skip_form-Ends Form.ref_udata fuel c h = leb-Ends c _
skip_form-Ends Form.string fuel c h = text-Ends c _
skip_form-Ends _ fuel c h = λ e. cc
