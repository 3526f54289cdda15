-- ===== src/Dwarf/Cursor.antt =====
-- dwarf/internal.hh and dwarf/cursor.cc: `cursor`.
pub mod Image
pub mod Leb
pub mod Fixed
pub mod Ends
pub mod Progress
pub mod Sleb
use libelfin.Prelude.{
  ℕ, zero, suc, ◌+◌, ◌-◌, ◌*◌, ◌%◌, ◌^◌, Bool, true, false, ◌&&◌, ◌||◌, Option, none, some, List,
  bit_and, bit_or, ltb, leb, ◌==◌, if◌then◌else◌, get_elem?, take, drop,
}
use libelfin.Result.{
  Result, ok, err, undefined, underflow_error, format_error, logic_error, runtime_error,
  reserved_initial_length, unterminated_string, unknown_format, bad_address_size, guard, ◌>>=◌,
  ◌>>◌,
}
use libelfin.Word.{u64_mod, sub64, shl64, neg64, sign_extend}
use libelfin.Dwarf.Section.{
  Section, Format, unknown, dwarf32, dwarf64, ByteOrder, lsb, msb, ptr_add,
}

pub record Cursor : Type 0 where
  pub sec : Section
  pub pos : ℕ

-- `cursor(sec, offset)`
abbrev pub cursor_at : Section → ℕ → Cursor
cursor_at s offset = record { sec = s; pos = ptr_add s.begin offset }

-- `cursor::end`
abbrev pub at_end : Cursor → Bool
at_end c = leb c.sec.end c.pos

abbrev pub get_section_offset : Cursor → ℕ
get_section_offset c = sub64 c.pos c.sec.begin

-- `*p`: a pointer outside the image is undefined behaviour.
abbrev pub to_byte : Option ℕ → Result ℕ
to_byte none = err undefined
to_byte (some b) = ok b

unfoldable pub read_byte : List ℕ → ℕ → Result ℕ
read_byte mem p = to_byte (get_elem? mem p)

-- `cursor::operator+=`
abbrev pub advance : ℕ → Cursor → Cursor
advance n c = record c { pos = ptr_add c.pos n }

unfoldable pub ensure : ℕ → Cursor → Result (Unit {0})
ensure bytes c =
    if ltb (sub64 c.sec.end c.pos) bytes || leb c.sec.end c.pos then err underflow_error else ok tt

-- `for (unsigned i = 0; i < sizeof(T); i++) val |= ((uint64_t)p[i]) << (i * 8);`
unfoldable pub fixed_lsb : ℕ → ℕ → List ℕ → ℕ → ℕ → Result ℕ
fixed_lsb zero i mem p val = ok val
fixed_lsb (suc n) i mem p val = do
  b ← read_byte mem (p + i)
  fixed_lsb n (i + 1) mem p (bit_or val (shl64 b (i * 8)))

-- `for (unsigned i = 0; i < sizeof(T); i++) val = (val << 8) | (uint64_t)p[i];`
unfoldable pub fixed_msb : ℕ → ℕ → List ℕ → ℕ → ℕ → Result ℕ
fixed_msb zero i mem p val = ok val
fixed_msb (suc n) i mem p val = do
  b ← read_byte mem (p + i)
  fixed_msb n (i + 1) mem p (bit_or (shl64 val 8) b)

abbrev pub fixed_value : ByteOrder → ℕ → List ℕ → ℕ → Result ℕ
fixed_value lsb n mem p = fixed_lsb n 0 mem p 0
fixed_value msb n mem p = fixed_msb n 0 mem p 0

-- `fixed<T>()` at an unsigned T of n bytes
unfoldable pub fixed : ℕ → Cursor → Result (ℕ × Cursor)
fixed n c = do
  ensure n c
  val ← fixed_value c.sec.ord n c.sec.mem c.pos
  ok (val % 2 ^ (n * 8), record c { pos = c.pos + n })

-- `fixed<T>()` at a signed T of n bytes, as a pattern of 64 bits
unfoldable pub fixed_signed : ℕ → Cursor → Result (ℕ × Cursor)
fixed_signed n c = do (v, c') ← fixed n c; ok (sign_extend (2 ^ (n * 8 - 1)) v, c')

-- `while (pos < sec->end)`: the first argument counts the bytes up to the end. A shift by 64 or
-- more is undefined behaviour.
unfoldable pub uleb128_loop : ℕ → List ℕ → ℕ → ℕ → ℕ → Result (ℕ × ℕ)
uleb128_loop zero mem pos result shift = err underflow_error
uleb128_loop (suc n) mem pos result shift = do
  byte ← read_byte mem pos
  guard (ltb shift 64) undefined
  let result' = bit_or result (shl64 (bit_and byte 0x7f) shift)
  let more = uleb128_loop n mem (pos + 1) result' (shift + 7)
  if bit_and byte 0x80 == 0 then ok (result', pos + 1) else more

unfoldable pub uleb128 : Cursor → Result (ℕ × Cursor)
uleb128 c = do
  (v, p) ← uleb128_loop (c.sec.end - c.pos) c.sec.mem c.pos 0 0
  ok (v, record c { pos = p })

-- The last byte of an SLEB128: `shift` has been moved past it.
abbrev pub sleb128_finish : ℕ → ℕ → ℕ → ℕ
sleb128_finish byte result shift =
    if ltb shift 64 && ltb 0 (bit_and byte 0x40) then bit_or result (neg64 (2 ^ shift)) else result

unfoldable pub sleb128_loop : ℕ → List ℕ → ℕ → ℕ → ℕ → Result (ℕ × ℕ)
sleb128_loop zero mem pos result shift = err underflow_error
sleb128_loop (suc n) mem pos result shift = do
  byte ← read_byte mem pos
  guard (ltb shift 64) undefined
  let result' = bit_or result (shl64 (bit_and byte 0x7f) shift)
  let more = sleb128_loop n mem (pos + 1) result' (shift + 7)
  if bit_and byte 0x80 == 0 then ok (sleb128_finish byte result' (shift + 7), pos + 1) else more

-- The int64_t as a pattern of 64 bits.
unfoldable pub sleb128 : Cursor → Result (ℕ × Cursor)
sleb128 c = do
  (v, p) ← sleb128_loop (c.sec.end - c.pos) c.sec.mem c.pos 0 0
  ok (v, record c { pos = p })

abbrev pub address_of_size : ℕ → Cursor → Result (ℕ × Cursor)
address_of_size n c =
    if n == 1
    then fixed 1 c
    else if n == 2
    then fixed 2 c
    else if n == 4
    then fixed 4 c
    else if n == 8
    then fixed 8 c
    else err (runtime_error (bad_address_size n))

unfoldable pub address : Cursor → Result (ℕ × Cursor)
address c = address_of_size c.sec.addr_size c

-- The section that `subsection` makes, and the cursor behind it.
abbrev pub subsection_of : Cursor → Cursor → ℕ → Format → Section × Cursor
subsection_of start c length fmt = (
  record start.sec { begin = start.pos; end = ptr_add start.pos length; fmt = fmt; addr_size = 0 },
  record c { pos = ptr_add start.pos length },
)

unfoldable pub subsection : Cursor → Result (Section × Cursor)
subsection c = do
  (length, c1) ← fixed 4 c
  if ltb length 0xffff_fff0
      then ok (subsection_of c c1 ((length + 4) % u64_mod) dwarf32)
      else if length == 0xffff_ffff
      then (do
        (length64, c2) ← fixed 8 c1
        ok (subsection_of c c2 ((length64 + 12) % u64_mod) dwarf64))
      else err (format_error reserved_initial_length)

abbrev pub initial_length_size : Format → Result ℕ
initial_length_size dwarf32 = ok 4
initial_length_size dwarf64 = ok 12
initial_length_size unknown = err (logic_error unknown_format)

unfoldable pub skip_initial_length : Cursor → Result Cursor
skip_initial_length c = do n ← initial_length_size c.sec.fmt; ok (advance n c)

pub skip_unit_type : Cursor → Cursor
skip_unit_type c = advance 1 c

abbrev pub offset_of_format : Format → Cursor → Result (ℕ × Cursor)
offset_of_format dwarf32 c = fixed 4 c
offset_of_format dwarf64 c = fixed 8 c
offset_of_format unknown c = err (logic_error unknown_format)

unfoldable pub offset : Cursor → Result (ℕ × Cursor)
offset c = offset_of_format c.sec.fmt c

-- `while (pos < sec->end && *pos) pos++;`
unfoldable pub scan_string : ℕ → List ℕ → ℕ → Result ℕ
scan_string zero mem pos = ok pos
scan_string (suc n) mem pos = do
  b ← read_byte mem pos
  let further = scan_string n mem (pos + 1)
  if b == 0 then ok pos else further

-- The pointer to the text and its size.
unfoldable pub cstr : Cursor → Result (ℕ × ℕ × Cursor)
cstr c = do
  p ← scan_string (c.sec.end - c.pos) c.sec.mem c.pos
  guard (if p == c.sec.end then false else true) (format_error unterminated_string)
  ok (c.pos, p - c.pos, record c { pos = ptr_add p 1 })

-- `cursor::string`: the bytes of the text. At an empty text `&out.front()` is the address of the
-- terminator, as the implementations of std::string have it, and nothing is copied to it.
unfoldable pub string : Cursor → Result (List ℕ × Cursor)
string c = do (p, n, c') ← cstr c; ok (take n (drop p c.sec.mem), c')
