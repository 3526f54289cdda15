-- ===== src/Dwarf/Cursor/Ends.antt =====
-- The operations of the cursor return on every input: none of their loops runs out of rounds.
use libelfin.Prelude.{
  ℕ, zero, suc, ◌+◌, ◌-◌, ◌≢◌, List, Bool, true, false, arith, ltb, if◌then◌else◌, ◌==◌, bit_and,
}
use libelfin.Result.{
  Error, Result, undefined, format_error, unterminated_string, guard, out_of_fuel, Ends, bind-Ends,
  ok-Ends,
}
use libelfin.Dwarf.Section.{ByteOrder, lsb, msb, Format, unknown, dwarf32, dwarf64}
use libelfin.Dwarf.Cursor.{
  Cursor, read_byte, ensure, fixed, fixed_value, fixed_lsb, fixed_msb, fixed_signed, uleb128,
  uleb128_loop, sleb128, sleb128_loop, scan_string, cstr, string, address, address_of_size, offset,
  offset_of_format,
}

pub read_byte-Ends : (mem : List ℕ) (p : ℕ) → Ends (read_byte mem p)
unfolding read_byte
read_byte-Ends mem p = ground arith

pub guard-Ends : (b : Bool) (e : Error) → e ≢ out_of_fuel → Ends (guard b e)
guard-Ends true e h = λ p. cc
guard-Ends false e h = λ p. h (cc p)

pub ensure-Ends : (n : ℕ) (c : Cursor) → Ends (ensure n c)
unfolding ensure
ensure-Ends n c = ground arith

pub if-Ends {ℓ} :
    {A : Type ℓ} (b : Bool) (x y : Result A) → Ends x → Ends y → Ends (if b then x else y)
if-Ends true x y hx hy = hx
if-Ends false x y hx hy = hy

fixed_lsb-Ends : (n i : ℕ) (mem : List ℕ) (p v : ℕ) → Ends (fixed_lsb n i mem p v)
unfolding fixed_lsb
fixed_lsb-Ends zero i mem p v = λ e. cc
fixed_lsb-Ends (suc n) i mem p v =
    bind-Ends (read_byte mem (p + i)) _ (read_byte-Ends mem (p + i))
      λ b e. fixed_lsb-Ends n (i + 1) mem p _

fixed_msb-Ends : (n i : ℕ) (mem : List ℕ) (p v : ℕ) → Ends (fixed_msb n i mem p v)
unfolding fixed_msb
fixed_msb-Ends zero i mem p v = λ e. cc
fixed_msb-Ends (suc n) i mem p v =
    bind-Ends (read_byte mem (p + i)) _ (read_byte-Ends mem (p + i))
      λ b e. fixed_msb-Ends n (i + 1) mem p _

fixed_value-Ends : (o : ByteOrder) (n : ℕ) (mem : List ℕ) (p : ℕ) → Ends (fixed_value o n mem p)
fixed_value-Ends lsb n mem p = fixed_lsb-Ends n 0 mem p 0
fixed_value-Ends msb n mem p = fixed_msb-Ends n 0 mem p 0

pub fixed-Ends : (n : ℕ) (c : Cursor) → Ends (fixed n c)
unfolding fixed
fixed-Ends n c = bind-Ends (ensure n c) _ (ensure-Ends n c) λ u e.
    bind-Ends (fixed_value c.sec.ord n c.sec.mem c.pos) _
      (fixed_value-Ends c.sec.ord n c.sec.mem c.pos) λ v e'. ok-Ends _

pub fixed_signed-Ends : (n : ℕ) (c : Cursor) → Ends (fixed_signed n c)
unfolding fixed_signed
fixed_signed-Ends n c = bind-Ends (fixed n c) _ (fixed-Ends n c) λ v e. ok-Ends _

uleb128_loop-Ends : (n : ℕ) (mem : List ℕ) (p r s : ℕ) → Ends (uleb128_loop n mem p r s)
unfolding uleb128_loop
uleb128_loop-Ends zero mem p r s = λ e. cc
uleb128_loop-Ends (suc n) mem p r s = bind-Ends (read_byte mem p) _ (read_byte-Ends mem p) λ b e.
    bind-Ends (guard (ltb s 64) undefined) _ (guard-Ends (ltb s 64) undefined (λ p. cc)) λ u e'.
      if-Ends (bit_and b 0x80 == 0) _ _ (ok-Ends _) (uleb128_loop-Ends n mem (p + 1) _ (s + 7))

pub uleb128-Ends : (c : Cursor) → Ends (uleb128 c)
unfolding uleb128
uleb128-Ends c =
    bind-Ends _ _ (uleb128_loop-Ends (c.sec.end - c.pos) c.sec.mem c.pos 0 0) λ v e. ok-Ends _

sleb128_loop-Ends : (n : ℕ) (mem : List ℕ) (p r s : ℕ) → Ends (sleb128_loop n mem p r s)
unfolding sleb128_loop
sleb128_loop-Ends zero mem p r s = λ e. cc
sleb128_loop-Ends (suc n) mem p r s = bind-Ends (read_byte mem p) _ (read_byte-Ends mem p) λ b e.
    bind-Ends (guard (ltb s 64) undefined) _ (guard-Ends (ltb s 64) undefined (λ p. cc)) λ u e'.
      if-Ends (bit_and b 0x80 == 0) _ _ (ok-Ends _) (sleb128_loop-Ends n mem (p + 1) _ (s + 7))

pub sleb128-Ends : (c : Cursor) → Ends (sleb128 c)
unfolding sleb128
sleb128-Ends c =
    bind-Ends _ _ (sleb128_loop-Ends (c.sec.end - c.pos) c.sec.mem c.pos 0 0) λ v e. ok-Ends _

pub scan_string-Ends : (n : ℕ) (mem : List ℕ) (p : ℕ) → Ends (scan_string n mem p)
unfolding scan_string
scan_string-Ends zero mem p = λ e. cc
scan_string-Ends (suc n) mem p =
    bind-Ends (read_byte mem p) _ (read_byte-Ends mem p)
      λ b e. if-Ends (b == 0) _ _ (ok-Ends _) (scan_string-Ends n mem (p + 1))

pub cstr-Ends : (c : Cursor) → Ends (cstr c)
unfolding cstr
cstr-Ends c = bind-Ends _ _ (scan_string-Ends (c.sec.end - c.pos) c.sec.mem c.pos) λ q e.
    bind-Ends _ _
      (guard-Ends (if q == c.sec.end then false else true) (format_error unterminated_string)
        (λ p. cc))
      λ u e'. ok-Ends _

pub string-Ends : (c : Cursor) → Ends (string c)
unfolding string
string-Ends c = bind-Ends (cstr c) _ (cstr-Ends c) λ t e. ok-Ends _

address_of_size-Ends : (n : ℕ) (c : Cursor) → Ends (address_of_size n c)
address_of_size-Ends n c = if-Ends (n == 1) _ _ (fixed-Ends 1 c) (
    if-Ends (n == 2) _ _ (fixed-Ends 2 c)
      (if-Ends (n == 4) _ _ (fixed-Ends 4 c) (if-Ends (n == 8) _ _ (fixed-Ends 8 c) (λ e. cc))))

pub address-Ends : (c : Cursor) → Ends (address c)
unfolding address
address-Ends c = address_of_size-Ends c.sec.addr_size c

offset_of_format-Ends : (f : Format) (c : Cursor) → Ends (offset_of_format f c)
offset_of_format-Ends dwarf32 c = fixed-Ends 4 c
offset_of_format-Ends dwarf64 c = fixed-Ends 8 c
offset_of_format-Ends unknown c = λ e. cc

pub offset-Ends : (c : Cursor) → Ends (offset c)
unfolding offset
offset-Ends c = offset_of_format-Ends c.sec.fmt c
