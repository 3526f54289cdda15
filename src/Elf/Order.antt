-- ===== src/Elf/Order.antt =====
-- elf/common.hh: byte orders, `resolve_order` and `swizzle`. Numbers are unsigned, of 1, 2, 4 or 8
-- bytes.
pub mod Field
use libelfin.Prelude.{
  ℕ, zero, suc, ◌+◌, ◌*◌, ◌/◌, ◌%◌, Bool, true, false, List, [], ◌∷◌, bit_and, bit_or, ◌==◌,
  if◌then◌else◌,
}
use libelfin.Dwarf.Section.{ByteOrder, lsb, msb}

-- `elf::byte_order`: `resolved` is the order in the sense of dwarf/.
pub data ElfOrder : Type 0 where
  native : ElfOrder
  resolved : ByteOrder → ElfOrder

-- `resolve_order`, on a machine of the order `host`.
unfoldable pub resolve_order : ByteOrder → ElfOrder → ByteOrder
resolve_order host native = host
resolve_order host (resolved o) = o

abbrev pub same_order : ByteOrder → ByteOrder → Bool
same_order lsb lsb = true
same_order lsb msb = false
same_order msb lsb = false
same_order msb msb = true

-- The bytes of a number, lowest first; and the number of bytes, highest first.
abbrev pub low_first : ℕ → ℕ → List ℕ
low_first zero v = []
low_first (suc n) v = v % 256 ∷ low_first n (v / 256)

abbrev pub from_high_first : ℕ → List ℕ → ℕ
from_high_first v [] = v
from_high_first v (b ∷ bs) = from_high_first (v * 256 + b) bs

-- `__builtin_bswap32` and `__builtin_bswap64`: the bytes in the other order
unfoldable pub bswap : ℕ → ℕ → ℕ
bswap n v = from_high_first 0 (low_first n v)

-- `swizzle<T>(v, from, to)`, for a T of n bytes
unfoldable pub swizzle : ByteOrder → ℕ → ℕ → ElfOrder → ElfOrder → ℕ
swizzle host n v from to =
    if same_order (resolve_order host from) (resolve_order host to)
    then v
    else if n == 1
    then v
    else if n == 2
    then bit_or (bit_and v 0xff * 256) (v / 256)
    else bswap n v
