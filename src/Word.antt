-- ===== src/Word.antt =====
-- The machine integers of the library as native numbers: a value of a w-bit type is its bit
-- pattern, below 2 ^ w, and every operation writes its wrap-around out.
use libelfin.Prelude.{ℕ, ◌+◌, ◌-◌, ◌*◌, ◌%◌, ◌^◌, ◌<◌, Bool, ltb, leb, if◌then◌else◌}

-- 2 ^ 64
abbrev pub u64_mod : ℕ
u64_mod = 0x1_0000_0000_0000_0000

abbrev pub IsU64 : ℕ → Type 0
IsU64 v = v < u64_mod

abbrev pub IsByte : ℕ → Type 0
IsByte b = b < 256

abbrev pub add64 : ℕ → ℕ → ℕ
add64 a b = (a + b) % u64_mod

abbrev pub sub64 : ℕ → ℕ → ℕ
sub64 a b = (a + u64_mod - b) % u64_mod

abbrev pub neg64 : ℕ → ℕ
neg64 a = (u64_mod - a) % u64_mod

abbrev pub mul64 : ℕ → ℕ → ℕ
mul64 a b = (a * b) % u64_mod

-- `v << s` on uint64_t, for s below 64.
abbrev pub shl64 : ℕ → ℕ → ℕ
shl64 v s = (v * 2 ^ s) % u64_mod

-- The sign of an int64_t, and its order.
abbrev pub is_negative : ℕ → Bool
is_negative a = leb 0x8000_0000_0000_0000 a

-- The pattern of the signed value order, shifted so that it becomes the order of the numbers.
abbrev pub bias : ℕ → ℕ
bias a = (a + 0x8000_0000_0000_0000) % u64_mod

-- `(int64_t)` of an intN_t with the pattern v, at the sign bit `half` and the modulus `2 * half`.
abbrev pub sign_extend : ℕ → ℕ → ℕ
sign_extend half v = if ltb v half then v else v + u64_mod - 2 * half
