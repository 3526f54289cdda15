-- ===== src/Dwarf/Value/Fits.antt =====
-- dwarf/cursor.cc: no read of the cursor throws `value_type_mismatch`.
use libelfin.Prelude.{
  ℕ, zero, suc, ◌+◌, ◌-◌, Bool, true, false, List, arith, ltb, ◌==◌, bit_and, if◌then◌else◌,
}
use libelfin.Result.{
  Error, Result, undefined, format_error, unterminated_string, type_mismatch, wrong_value_form,
  guard, Avoids, bind-Avoids, if-Avoids, ok-Avoids,
}
use libelfin.Dwarf.Section.{ByteOrder, lsb, msb, Format, unknown, dwarf32, dwarf64}
use libelfin.Dwarf.Cursor.{
  Cursor, read_byte, ensure, fixed, fixed_value, fixed_lsb, fixed_msb, fixed_signed, uleb128,
  uleb128_loop, sleb128, sleb128_loop, scan_string, cstr, address, offset, offset_of_format,
}

abbrev pub wrong : Error
wrong = type_mismatch wrong_value_form

abbrev pub Fits {ℓ} : {A : Type ℓ} → Result A → Type ℓ
Fits r = Avoids wrong r

pub read_byte-Fits : (mem : List ℕ) (p : ℕ) → Fits (read_byte mem p)
unfolding read_byte
read_byte-Fits mem p = ground arith

guard_undefined-Fits : (b : Bool) → Fits (guard b undefined)
guard_undefined-Fits true = λ p. cc
guard_undefined-Fits false = λ p. cc

pub ensure-Fits : (n : ℕ) (c : Cursor) → Fits (ensure n c)
unfolding ensure
ensure-Fits n c = ground arith

fixed_lsb-Fits : (n i : ℕ) (mem : List ℕ) (p v : ℕ) → Fits (fixed_lsb n i mem p v)
unfolding fixed_lsb
fixed_lsb-Fits zero i mem p v = λ e. cc
fixed_lsb-Fits (suc n) i mem p v =
    bind-Avoids wrong (read_byte mem (p + i)) _ (read_byte-Fits mem (p + i))
      λ b e. fixed_lsb-Fits n (i + 1) mem p _

fixed_msb-Fits : (n i : ℕ) (mem : List ℕ) (p v : ℕ) → Fits (fixed_msb n i mem p v)
unfolding fixed_msb
fixed_msb-Fits zero i mem p v = λ e. cc
fixed_msb-Fits (suc n) i mem p v =
    bind-Avoids wrong (read_byte mem (p + i)) _ (read_byte-Fits mem (p + i))
      λ b e. fixed_msb-Fits n (i + 1) mem p _

fixed_value-Fits : (o : ByteOrder) (n : ℕ) (mem : List ℕ) (p : ℕ) → Fits (fixed_value o n mem p)
fixed_value-Fits lsb n mem p = fixed_lsb-Fits n 0 mem p 0
fixed_value-Fits msb n mem p = fixed_msb-Fits n 0 mem p 0

pub fixed-Fits : (n : ℕ) (c : Cursor) → Fits (fixed n c)
unfolding fixed
fixed-Fits n c = bind-Avoids wrong (ensure n c) _ (ensure-Fits n c) λ u e.
    bind-Avoids wrong (fixed_value c.sec.ord n c.sec.mem c.pos) _
      (fixed_value-Fits c.sec.ord n c.sec.mem c.pos) λ v e'. ok-Avoids wrong _

pub fixed_signed-Fits : (n : ℕ) (c : Cursor) → Fits (fixed_signed n c)
unfolding fixed_signed
fixed_signed-Fits n c = bind-Avoids wrong (fixed n c) _ (fixed-Fits n c) λ v e. ok-Avoids wrong _

uleb128_loop-Fits : (n : ℕ) (mem : List ℕ) (p r s : ℕ) → Fits (uleb128_loop n mem p r s)
unfolding uleb128_loop
uleb128_loop-Fits zero mem p r s = λ e. cc
uleb128_loop-Fits (suc n) mem p r s =
    bind-Avoids wrong (read_byte mem p) _ (read_byte-Fits mem p) λ b e.
      bind-Avoids wrong (guard (ltb s 64) undefined) _ (guard_undefined-Fits (ltb s 64)) λ u e'.
        if-Avoids wrong (bit_and b 0x80 == 0) _ _ (ok-Avoids wrong _)
          (uleb128_loop-Fits n mem (p + 1) _ (s + 7))

pub uleb128-Fits : (c : Cursor) → Fits (uleb128 c)
unfolding uleb128
uleb128-Fits c =
    bind-Avoids wrong _ _ (uleb128_loop-Fits (c.sec.end - c.pos) c.sec.mem c.pos 0 0)
      λ v e. ok-Avoids wrong _

sleb128_loop-Fits : (n : ℕ) (mem : List ℕ) (p r s : ℕ) → Fits (sleb128_loop n mem p r s)
unfolding sleb128_loop
sleb128_loop-Fits zero mem p r s = λ e. cc
sleb128_loop-Fits (suc n) mem p r s =
    bind-Avoids wrong (read_byte mem p) _ (read_byte-Fits mem p) λ b e.
      bind-Avoids wrong (guard (ltb s 64) undefined) _ (guard_undefined-Fits (ltb s 64)) λ u e'.
        if-Avoids wrong (bit_and b 0x80 == 0) _ _ (ok-Avoids wrong _)
          (sleb128_loop-Fits n mem (p + 1) _ (s + 7))

pub sleb128-Fits : (c : Cursor) → Fits (sleb128 c)
unfolding sleb128
sleb128-Fits c =
    bind-Avoids wrong _ _ (sleb128_loop-Fits (c.sec.end - c.pos) c.sec.mem c.pos 0 0)
      λ v e. ok-Avoids wrong _

pub scan_string-Fits : (n : ℕ) (mem : List ℕ) (p : ℕ) → Fits (scan_string n mem p)
unfolding scan_string
scan_string-Fits zero mem p = λ e. cc
scan_string-Fits (suc n) mem p =
    bind-Avoids wrong (read_byte mem p) _ (read_byte-Fits mem p)
      λ b e. if-Avoids wrong (b == 0) _ _ (ok-Avoids wrong _) (scan_string-Fits n mem (p + 1))

terminated-Fits : (b : Bool) → Fits (guard b (format_error unterminated_string))
terminated-Fits true = λ p. cc
terminated-Fits false = λ p. cc

pub cstr-Fits : (c : Cursor) → Fits (cstr c)
unfolding cstr
cstr-Fits c = bind-Avoids wrong _ _ (scan_string-Fits (c.sec.end - c.pos) c.sec.mem c.pos) λ q e.
    bind-Avoids wrong _ _ (terminated-Fits (if q == c.sec.end then false else true))
      λ u e'. ok-Avoids wrong _

pub address-Fits : (c : Cursor) → Fits (address c)
unfolding address
address-Fits c = if-Avoids wrong (c.sec.addr_size == 1) _ _ (fixed-Fits 1 c) (
    if-Avoids wrong (c.sec.addr_size == 2) _ _ (fixed-Fits 2 c) (
      if-Avoids wrong (c.sec.addr_size == 4) _ _ (fixed-Fits 4 c)
        (if-Avoids wrong (c.sec.addr_size == 8) _ _ (fixed-Fits 8 c) (λ e. cc))))

offset_of_format-Fits : (f : Format) (c : Cursor) → Fits (offset_of_format f c)
offset_of_format-Fits dwarf32 c = fixed-Fits 4 c
offset_of_format-Fits dwarf64 c = fixed-Fits 8 c
offset_of_format-Fits unknown c = λ e. cc

pub offset-Fits : (c : Cursor) → Fits (offset c)
unfolding offset
offset-Fits c = offset_of_format-Fits c.sec.fmt c
