-- ===== src/Dwarf/Skip/Extent.antt =====
-- `cursor::skip_form` against the reads of dwarf/value.cc: it stops where reading the value stops.
use mathlib.Core.Path.{subst}
use native.Mathlib.Nat.{mod-eq_of_lt}
use libelfin.Prelude.{
  ℕ, zero, suc, ◌+◌, ◌-◌, ◌≤◌, ◌≡◌, sym, ap, ◌∙◌, inl, inr, true, false, List, arith, bit_and,
  bit_or, ltb, ◌==◌, ==_iff, if◌then◌else◌, Bool-cases,
}
use libelfin.Result.{
  Result, ok, err, out_of_fuel, undefined, format_error, unknown_form, guard, ◌>>=◌, ◌>>◌,
  >>=-eq-ok, ok_inj, unterminated_string,
}
use libelfin.Word.{shl64}
use libelfin.Dwarf.Section.{Format, unknown, dwarf32, dwarf64, ptr_add}
use libelfin.Dwarf.Cursor.{
  Cursor, advance, read_byte, ensure, fixed, uleb128_loop, uleb128, sleb128_loop, sleb128, address,
  address_of_size, offset, offset_of_format, scan_string, cstr,
}
use libelfin.Dwarf.Cursor.Image.{InImage}
use libelfin.Dwarf.Cursor.Fixed.{fixed_cases}
use libelfin.Dwarf.Cursor.Progress.{Forward, uleb128-Forward, sleb128-Forward}
use libelfin.Dwarf.Form.{Form, form_of}
use libelfin.Dwarf.Skip.{scan_leb, skip_form, offset_size}

-- The cursor behind a block whose size has been read.
abbrev behind_block : Result (ℕ × Cursor) → Result Cursor
behind_block r = do (n, c) ← r; ensure n c; ok (advance n c)

abbrev behind : Result (ℕ × Cursor) → Result Cursor
behind r = do (v, c) ← r; ok c

-- The cursor behind the value of a form, by the operations that `value` reads it with: `as_address`,
-- `as_block`, `as_uconstant`, `as_sconstant`, `as_flag`, `as_reference`, `as_cstr`, `as_sec_offset`
-- and `resolve_indirect`.
unfoldable pub reader : Form → ℕ → Cursor → Result Cursor
reader Form.addr fuel c = behind (address c)
reader Form.sec_offset fuel c = behind (offset c)
reader Form.ref_addr fuel c = behind (offset c)
reader Form.strp fuel c = behind (offset c)
reader Form.block1 fuel c = behind_block (fixed 1 c)
reader Form.block2 fuel c = behind_block (fixed 2 c)
reader Form.block4 fuel c = behind_block (fixed 4 c)
reader Form.block fuel c = behind_block (uleb128 c)
reader Form.exprloc fuel c = behind_block (uleb128 c)
reader Form.flag_present fuel c = ok c
reader Form.flag fuel c = behind (fixed 1 c)
reader Form.data1 fuel c = behind (fixed 1 c)
reader Form.ref1 fuel c = behind (fixed 1 c)
reader Form.data2 fuel c = behind (fixed 2 c)
reader Form.ref2 fuel c = behind (fixed 2 c)
reader Form.data4 fuel c = behind (fixed 4 c)
reader Form.ref4 fuel c = behind (fixed 4 c)
reader Form.data8 fuel c = behind (fixed 8 c)
reader Form.ref_sig8 fuel c = behind (fixed 8 c)
reader Form.sdata fuel c = behind (sleb128 c)
reader Form.udata fuel c = behind (uleb128 c)
reader Form.ref_udata fuel c = behind (uleb128 c)
reader Form.string fuel c = do (p, n, c') ← cstr c; ok c'
reader Form.indirect zero c = err out_of_fuel
reader Form.indirect (suc fuel) c = do (v, c') ← uleb128 c; reader (form_of v) fuel c'
reader Form.ref8 fuel c = err (format_error (unknown_form 0x14))
reader (Form.other v) fuel c = err (format_error (unknown_form v))

scan_leb-uleb128_loop :
    (n : ℕ) (mem : List ℕ) (p r s v q : ℕ)
    → uleb128_loop n mem p r s ≡ ok (v, q)
    → scan_leb n mem p ≡ ok (q - 1)
unfolding scan_leb uleb128_loop
scan_leb-uleb128_loop zero mem p r s v q e = absurd (cc)
scan_leb-uleb128_loop (suc n) mem p r s v q e =
    let (b, read, e1) = >>=-eq-ok (read_byte mem p) _ e in
    let (u, g, e2) = >>=-eq-ok (guard (ltb s 64) undefined) _ e1 in
    let r' = bit_or r (shl64 (bit_and b 0x7f) s) in
    elim (Bool-cases (bit_and b 0x80 == 0)) [
      | inl last ↦ rw (read, last) (ground (arith, rw last at e2))
      | inr more ↦
          rw (read, more) (scan_leb-uleb128_loop n mem (p + 1) r' (s + 7) v q (rw more at e2))
    ]

scan_leb-sleb128_loop :
    (n : ℕ) (mem : List ℕ) (p r s v q : ℕ)
    → sleb128_loop n mem p r s ≡ ok (v, q)
    → scan_leb n mem p ≡ ok (q - 1)
unfolding scan_leb sleb128_loop
scan_leb-sleb128_loop zero mem p r s v q e = absurd (cc)
scan_leb-sleb128_loop (suc n) mem p r s v q e =
    let (b, read, e1) = >>=-eq-ok (read_byte mem p) _ e in
    let (u, g, e2) = >>=-eq-ok (guard (ltb s 64) undefined) _ e1 in
    let r' = bit_or r (shl64 (bit_and b 0x7f) s) in
    elim (Bool-cases (bit_and b 0x80 == 0)) [
      | inl last ↦ rw (read, last) (ground (arith, rw last at e2))
      | inr more ↦
          rw (read, more) (scan_leb-sleb128_loop n mem (p + 1) r' (s + 7) v q (rw more at e2))
    ]

-- A number of n bytes is skipped by n.
fixed_skip :
    (n : ℕ) (c : Cursor) {c' : Cursor}
    → InImage c.sec
    → 1 ≤ n
    → n ≤ 8
    → behind (fixed n c) ≡ ok c'
    → ok (advance n c) ≡ ok c'
fixed_skip n c img lo hi e = elim (fixed_cases n c img lo hi) [
  | inl (v, read, small, fits) ↦
      let space = img.addressable in
      ap (λ p. ok (record c { pos = p })) (mod-eq_of_lt (omega arith)) ∙ rw read at e
  | inr (none_left, far) ↦ absurd (cc (rw none_left at e))
]

abbrev at : Cursor → ℕ → Result Cursor
at c p = ok (record c { pos = p })

-- The loops stop before the last byte, and `pos++` passes it.
step_past :
    (c c' : Cursor) (q : ℕ)
    → InImage c.sec
    → Forward c c'
    → at c q ≡ ok c'
    → at c (ptr_add (q - 1) 1) ≡ ok c'
step_past c c' q img f here =
    let same : q ≡ c'.pos = ap (λ (d : Cursor). d.pos) (ok_inj here) in
    ap (λ p. ok (record c { pos = p })) (omega arith) ∙ here

uleb_skip :
    (c : Cursor) {v : ℕ} {c' : Cursor}
    → InImage c.sec
    → uleb128 c ≡ ok (v, c')
    → skip_form Form.udata 0 c ≡ ok c'
unfolding skip_form uleb128
uleb_skip c {v} {c'} img e =
    let ((w, q), loop, e1) = >>=-eq-ok (uleb128_loop (c.sec.end - c.pos) c.sec.mem c.pos 0 0) _ e in
    rw (scan_leb-uleb128_loop (c.sec.end - c.pos) c.sec.mem c.pos 0 0 w q loop)
      (step_past c c' q img (uleb128-Forward c e).0 (cc e1))

sleb_skip :
    (c : Cursor) {v : ℕ} {c' : Cursor}
    → InImage c.sec
    → sleb128 c ≡ ok (v, c')
    → skip_form Form.sdata 0 c ≡ ok c'
unfolding skip_form sleb128
sleb_skip c {v} {c'} img e =
    let ((w, q), loop, e1) = >>=-eq-ok (sleb128_loop (c.sec.end - c.pos) c.sec.mem c.pos 0 0) _ e in
    rw (scan_leb-sleb128_loop (c.sec.end - c.pos) c.sec.mem c.pos 0 0 w q loop)
      (step_past c c' q img (sleb128-Forward c e) (cc e1))

uleb_behind_skip :
    (c : Cursor) {c' : Cursor}
    → InImage c.sec
    → behind (uleb128 c) ≡ ok c'
    → skip_form Form.udata 0 c ≡ ok c'
uleb_behind_skip c {c'} img e =
    let ((v, d), read, e1) = >>=-eq-ok (uleb128 c) _ e in uleb_skip c img read ∙ e1

sleb_behind_skip :
    (c : Cursor) {c' : Cursor}
    → InImage c.sec
    → behind (sleb128 c) ≡ ok c'
    → skip_form Form.sdata 0 c ≡ ok c'
sleb_behind_skip c {c'} img e =
    let ((v, d), read, e1) = >>=-eq-ok (sleb128 c) _ e in sleb_skip c img read ∙ e1

string_skip :
    (c : Cursor) {c' : Cursor}
    → (do (p, n, d) ← cstr c; ok d) ≡ ok c'
    → skip_form Form.string 0 c ≡ ok c'
unfolding skip_form cstr
string_skip c {c'} e =
    let ((p, n, d), read, e1) = >>=-eq-ok (cstr c) _ e in
    let (q, found, e2) = >>=-eq-ok (scan_string (c.sec.end - c.pos) c.sec.mem c.pos) _ read in
    let (u, g, e3) =
      >>=-eq-ok (guard (if q == c.sec.end then false else true) (format_error unterminated_string))
        _ e2 in
    rw found (cc e3)

sized_skip :
    (r : Result (ℕ × Cursor)) {c' : Cursor}
    → behind_block r ≡ ok c'
    → (do (n, c) ← r; ok (advance n c)) ≡ ok c'
sized_skip r e =
    let ((n, d), read, e1) = >>=-eq-ok r _ e in
    let (u, g, e2) = >>=-eq-ok (ensure n d) _ e1 in rw read e2

offset_skip :
    (f : Format) (c : Cursor) {c' : Cursor}
    → InImage c.sec
    → behind (offset_of_format f c) ≡ ok c'
    → (do n ← offset_size f; ok (advance n c)) ≡ ok c'
offset_skip dwarf32 c img e = fixed_skip 4 c img (omega arith) (omega arith) e
offset_skip dwarf64 c img e = fixed_skip 8 c img (omega arith) (omega arith) e
offset_skip unknown c img e = absurd (cc)

-- An address of a supported size is skipped by that size.
fixed_skip_at :
    (n k : ℕ) (c : Cursor) {c' : Cursor}
    → InImage c.sec
    → 1 ≤ k
    → k ≤ 8
    → (n == k) ≡ true
    → behind (fixed k c) ≡ ok c'
    → ok (advance n c) ≡ ok c'
fixed_skip_at n k c img lo hi same e =
    let n_is : n ≡ k = (==_iff n k).0 same in rw n_is (fixed_skip k c img lo hi e)

address_skip :
    (n : ℕ) (c : Cursor) {c' : Cursor}
    → InImage c.sec
    → behind (address_of_size n c) ≡ ok c'
    → ok (advance n c) ≡ ok c'
address_skip n c img e = elim (Bool-cases (n == 1)) [
  | inl is ↦ fixed_skip_at n 1 c img (omega arith) (omega arith) is (rw is at e)
  | inr not_1 ↦ elim (Bool-cases (n == 2)) [
    | inl is ↦ fixed_skip_at n 2 c img (omega arith) (omega arith) is (rw (not_1, is) at e)
    | inr not_2 ↦ elim (Bool-cases (n == 4)) [
      | inl is ↦ fixed_skip_at n 4 c img (omega arith) (omega arith) is (rw (not_1, not_2, is) at e)
      | inr not_4 ↦ elim (Bool-cases (n == 8)) [
        | inl is ↦
            fixed_skip_at n 8 c img (omega arith) (omega arith) is
              (rw (not_1, not_2, not_4, is) at e)
        | inr not_8 ↦ absurd (cc (rw (not_1, not_2, not_4, not_8) at e))
      ]
    ]
  ]
]

-- Where a value of the form can be read in the section, `skip_form` moves the cursor to the place
-- where reading the value leaves it: for every form of the switch, through any chain of indirect
-- forms. (`ref8` is no form of the switch, and the claim says nothing of it.)
pub skip_form-reader :
    (f : Form) (fuel : ℕ) (c : Cursor) {c' : Cursor}
    → InImage c.sec
    → reader f fuel c ≡ ok c'
    → skip_form f fuel c ≡ ok c'
unfolding skip_form reader address offset
skip_form-reader Form.addr fuel c img e = address_skip c.sec.addr_size c img e
skip_form-reader Form.sec_offset fuel c img e = offset_skip c.sec.fmt c img e
skip_form-reader Form.ref_addr fuel c img e = offset_skip c.sec.fmt c img e
skip_form-reader Form.strp fuel c img e = offset_skip c.sec.fmt c img e
skip_form-reader Form.block1 fuel c img e = sized_skip (fixed 1 c) e
skip_form-reader Form.block2 fuel c img e = sized_skip (fixed 2 c) e
skip_form-reader Form.block4 fuel c img e = sized_skip (fixed 4 c) e
skip_form-reader Form.block fuel c img e = sized_skip (uleb128 c) e
skip_form-reader Form.exprloc fuel c img e = sized_skip (uleb128 c) e
skip_form-reader Form.flag_present fuel c img e = e
skip_form-reader Form.flag fuel c img e = fixed_skip 1 c img (omega arith) (omega arith) e
skip_form-reader Form.data1 fuel c img e = fixed_skip 1 c img (omega arith) (omega arith) e
skip_form-reader Form.ref1 fuel c img e = fixed_skip 1 c img (omega arith) (omega arith) e
skip_form-reader Form.data2 fuel c img e = fixed_skip 2 c img (omega arith) (omega arith) e
skip_form-reader Form.ref2 fuel c img e = fixed_skip 2 c img (omega arith) (omega arith) e
skip_form-reader Form.data4 fuel c img e = fixed_skip 4 c img (omega arith) (omega arith) e
skip_form-reader Form.ref4 fuel c img e = fixed_skip 4 c img (omega arith) (omega arith) e
skip_form-reader Form.data8 fuel c img e = fixed_skip 8 c img (omega arith) (omega arith) e
skip_form-reader Form.ref_sig8 fuel c img e = fixed_skip 8 c img (omega arith) (omega arith) e
skip_form-reader Form.sdata fuel c img e = sleb_behind_skip c img e
skip_form-reader Form.udata fuel c img e = uleb_behind_skip c img e
skip_form-reader Form.ref_udata fuel c img e = uleb_behind_skip c img e
skip_form-reader Form.string fuel c img e = string_skip c e
skip_form-reader Form.indirect zero c img e = absurd (cc)
skip_form-reader Form.indirect (suc fuel) c img e =
    let ((v, d), read, e1) = >>=-eq-ok (uleb128 c) _ e in
    let same = (uleb128-Forward c read).0.same_section in
    rw read (skip_form-reader (form_of v) fuel d (subst InImage (sym same) img) e1)
skip_form-reader Form.ref8 fuel c img e = absurd (cc)
skip_form-reader (Form.other v) fuel c img e = absurd (cc)
