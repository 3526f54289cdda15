-- ===== src/Dwarf/Alu/Divide.antt =====
-- dwarf/expr.cc: the division of the evaluator.
use native.Mathlib.Nat.{div-eq_of_lt, div-le_self, le-div_iff_mul-le}
use native.Mathlib.Decide.{dec_lt}
use libelfin.Prelude.{
  ℕ, zero, suc, ◌/◌, ◌≤◌, ◌<◌, ◌≡◌, ◌≢◌, refl, sym, ap, ◌∙◌, Bool, true, false, not, ◌==◌, arith,
  if◌then◌else◌,
}
use libelfin.Result.{ok, err, undefined, ok_inj}
use libelfin.Word.{neg64, is_negative}
use libelfin.Dwarf.Op.{div}
use libelfin.Dwarf.Alu.{binary_value, divide_signed, magnitude}

-- The pattern of the number with this sign, `true` for minus, and this magnitude.
abbrev pub signed : Bool → ℕ → ℕ
signed true n = neg64 n
signed false n = n

abbrev pub differ : Bool → Bool → Bool
differ true t = not t
differ false t = t

module _ (s : Bool) (n : ℕ) (small : n < 0x8000_0000_0000_0000) where
  magnitude-signed : magnitude (signed s n) ≡ n
  magnitude-signed = elim s [ true ↦ ground (arith, small) | false ↦ ground (arith, small) ]

  signed_min : (signed s n == 0x8000_0000_0000_0000) ≡ false
  signed_min = elim s [ true ↦ ground (arith, small) | false ↦ ground (arith, small) ]

  is_negative-signed : 0 < n → is_negative (signed s n) ≡ s
  is_negative-signed some_size = elim s [
    | true ↦ ground (arith, small)
    | false ↦ ground (arith, small)
  ]

  signed_nonzero : 0 < n → (signed s n == 0) ≡ false
  signed_nonzero some_size = elim s [ true ↦ ground (arith, small) | false ↦ ground (arith, small) ]

signed_zero : (s : Bool) → signed s 0 ≡ 0
signed_zero true = refl
signed_zero false = refl

zero_cases : (t : Bool) → (if t then neg64 0 else 0) ≡ 0
zero_cases true = refl
zero_cases false = refl

signed_inj :
    (s : Bool) (m n : ℕ)
    → m < 0x8000_0000_0000_0000
    → n < 0x8000_0000_0000_0000
    → signed s m ≡ signed s n
    → m ≡ n
signed_inj true m n hm hn e = omega (arith, e)
signed_inj false m n hm hn e = e

sign_cases :
    (s t : Bool) (q : ℕ)
    → (if s then (if t then q else neg64 q) else (if t then neg64 q else q)) ≡ signed (differ s t) q
sign_cases true true q = refl
sign_cases true false q = refl
sign_cases false true q = refl
sign_cases false false q = refl

div_signed :
    (s t : Bool) (top second : ℕ)
    → top < 0x8000_0000_0000_0000
    → second < 0x8000_0000_0000_0000
    → 0 < second
    → binary_value div (signed s top) (signed t second) ≡ ok (signed (differ s t) (top / second))
unfolding binary_value divide_signed
div_signed s t zero second ht hs pos =
    let none_of : 0 / second ≡ 0 = div-eq_of_lt pos in
    rw
      (
        signed_zero s,
        magnitude-signed t second hs,
        is_negative-signed t second hs pos,
        signed_nonzero t second hs pos,
        none_of,
        signed_zero (differ s t),
      )
      (ap ok (zero_cases t))
div_signed s t (suc k) second ht hs pos =
    rw
      (
        magnitude-signed s (suc k) ht,
        magnitude-signed t second hs,
        is_negative-signed s (suc k) ht (omega arith),
        is_negative-signed t second hs pos,
        signed_nonzero t second hs pos,
        signed_min s (suc k) ht,
      )
      (ap ok (sign_cases s t (suc k / second)))

quotients_differ : (a b : ℕ) → 0 < a → 0 < b → a ≢ b → a / b ≢ b / a
quotients_differ a b ha hb apart = λ e. elim (dec_lt a b) [
  | yes less ↦
      let large : 1 ≤ b / a = (le-div_iff_mul-le ha).1 (omega arith) in
      absurd (omega (arith, e, large, div-eq_of_lt less))
  | no more ↦
      let less : b < a = omega arith in
      let large : 1 ≤ a / b = (le-div_iff_mul-le hb).1 (omega arith) in
      absurd (omega (arith, e, large, div-eq_of_lt less))
]

-- On numbers of either sign and a magnitude below 2 ^ 63, DW_OP_div divides the top of the stack by
-- the entry below it, truncated toward zero: the quotient of the magnitudes, with the sign that the
-- signs give. DWARF divides the entry below by the top, and where both are nonzero and their
-- magnitudes differ, that is another number. A zero below the top is divided by, whatever the top.
pub div_swapped :
    (s t : Bool) (top second : ℕ)
    → top < 0x8000_0000_0000_0000
    → second < 0x8000_0000_0000_0000
    → 0 < second
    → (binary_value div (signed s top) (signed t second) ≡ ok (signed (differ s t) (top / second)))
      × (0 < top
          → top ≢ second
          → binary_value div (signed s top) (signed t second)
            ≢ ok (signed (differ s t) (second / top)))
      × (binary_value div (signed s top) 0 ≡ err undefined)
unfolding binary_value divide_signed
div_swapped s t top second ht hs pos =
    let code = div_signed s t top second ht hs pos in
    (
      code,
      λ some_top apart e.
          let same =
            signed_inj (differ s t) (top / second) (second / top)
              (omega (arith, div-le_self top second)) (omega (arith, div-le_self second top))
              (ok_inj (sym code ∙ e)) in
          quotients_differ top second some_top pos apart same,
      refl,
    )
