-- ===== src/Dwarf/Alu/Shift.antt =====
-- The shifts of the evaluator against multiplication and division by powers of two.
use native.Mathlib.Nat.{pow-suc, pow-le-pow_right, div-eq_of_lt}
use native.Mathlib.Decide.{dec_lt}
use libelfin.Prelude.{
  ℕ, zero, suc, ◌+◌, ◌-◌, ◌*◌, ◌/◌, ◌%◌, ◌^◌, ◌≤◌, ◌≡◌, ◌≢◌, refl, ap, arith, lt→ltb, le→not_ltb,
  if◌then◌else◌,
}
use libelfin.Result.{ok}
use libelfin.Word.{u64_mod, IsU64, neg64, is_negative}
use libelfin.Dwarf.Alu.{binary_value}
use libelfin.Dwarf.Op.{ArithOp}

-- From 2 ^ 64 on, a power of two is a multiple of 2 ^ 64.
high_power : (k : ℕ) → 2 ^ (k + 64) ≡ 2 ^ k * u64_mod
high_power zero = refl
high_power (suc k) =
    let e : suc k + 64 ≡ suc (k + 64) = omega arith in
    rw e (omega (arith, pow-suc 2 (k + 64), pow-suc 2 k, high_power k))

shifted_out : (a b : ℕ) → 64 ≤ a → (b * 2 ^ a) % u64_mod ≡ 0
shifted_out a b h =
    let e : a ≡ a - 64 + 64 = omega arith in
    rw e (omega (arith, ap (λ (t : ℕ). b * t) (high_power (a - 64))))

shifted_in : (a b : ℕ) → 64 ≤ a → IsU64 b → b / 2 ^ a ≡ 0
shifted_in a b h hb =
    let top : 2 ^ 64 ≤ 2 ^ a = pow-le-pow_right {n = 2} (omega arith) {i = 64} h in
    div-eq_of_lt (omega arith)

-- `shl` multiplies by a power of two modulo 2 ^ 64 and `shr` divides by it, at every shift amount:
-- the amounts of 64 and more, which the code treats apart, follow the same rule.
shift_by_powers :
    (a b : ℕ)
    → IsU64 b
    → (binary_value ArithOp.shl a b ≡ ok ((b * 2 ^ a) % u64_mod))
      × (binary_value ArithOp.shr a b ≡ ok (b / 2 ^ a))
unfolding binary_value
shift_by_powers a b hb = elim (dec_lt a 64) [
  | yes low ↦ (rw (lt→ltb a 64 low), rw (lt→ltb a 64 low))
  | no high ↦ (
    rw (le→not_ltb a 64 (omega arith), shifted_out a b (omega arith)),
    rw (le→not_ltb a 64 (omega arith), shifted_in a b (omega arith) hb),
  )
]

-- `shra` divides the magnitude and keeps the sign, at every shift amount and every number but the
-- least.
pub shift_magnitude :
    (a b : ℕ)
    → IsU64 b
    → b ≢ 0x8000_0000_0000_0000
    → binary_value ArithOp.shra a b
      ≡ ok (if is_negative b then neg64 (neg64 b / 2 ^ a) else b / 2 ^ a)
unfolding binary_value
shift_magnitude a b hb least = elim (dec_lt a 64) [
  | yes low ↦ rw (lt→ltb a 64 low) (ground arith)
  | no high ↦
      rw
        (
          le→not_ltb a 64 (omega arith),
          shifted_in a (neg64 b) (omega arith) (omega arith),
          shifted_in a b (omega arith) hb,
        )
        (ground arith)
]
