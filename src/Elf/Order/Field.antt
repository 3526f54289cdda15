-- ===== src/Elf/Order/Field.antt =====
-- elf/common.hh: `swizzle` gives the number that a file in the one order means by the bytes that the
-- machine reads in the other, and is its own inverse.
use mathlib.Core.Path.{subst}
use libelfin.Prelude.{
  ℕ, zero, suc, ◌+◌, ◌*◌, ◌/◌, ◌%◌, ◌^◌, ◌<◌, ◌≡◌, refl, sym, ap, ◌∙◌, ◌⊎◌, inl, inr, true, false,
  List, [], ◌∷◌, arith, bit_and, bit_or, ◌==◌, length, All, Bool-cases, ==_iff, ◌≤◌,
}
use libelfin.Prelude.Bits.{bit_or_disjoint, bit_or_comm}
use libelfin.Prelude.Mask.{low_byte}
use libelfin.Word.{IsByte}
use libelfin.Dwarf.Section.{ByteOrder, lsb, msb}
use libelfin.Dwarf.Cursor.Fixed.{le_value, be_value, order_value}
use libelfin.Elf.Order.{
  ElfOrder, native, resolved, resolve_order, same_order, low_first, from_high_first, bswap, swizzle,
}

-- The list backwards, in front of another.
abbrev onto : List ℕ → List ℕ → List ℕ
onto [] bs = bs
onto (a ∷ as_) bs = onto as_ (a ∷ bs)

onto-onto : (as_ bs : List ℕ) → onto (onto as_ bs) [] ≡ onto bs as_
onto-onto [] bs = refl
onto-onto (a ∷ as_) bs = onto-onto as_ (a ∷ bs)

onto-All : (as_ bs : List ℕ) → All IsByte as_ → All IsByte bs → All IsByte (onto as_ bs)
onto-All [] bs p q = q
onto-All (a ∷ as_) bs p q = onto-All as_ (a ∷ bs) p.1 (p.0, q)

length-onto : (as_ bs : List ℕ) → length (onto as_ bs) ≡ length as_ + length bs
length-onto [] bs = omega arith
length-onto (a ∷ as_) bs = omega (arith, length-onto as_ (a ∷ bs))

le_value-onto : (as_ bs : List ℕ) → le_value (onto as_ bs) ≡ be_value (le_value bs) as_
le_value-onto [] bs = refl
le_value-onto (a ∷ as_) bs =
    let e : a + 256 * le_value bs ≡ le_value bs * 256 + a = omega arith in
    le_value-onto as_ (a ∷ bs) ∙ ap (λ (v : ℕ). be_value v as_) e

from_high_first-be_value : (v : ℕ) (bs : List ℕ) → from_high_first v bs ≡ be_value v bs
from_high_first-be_value v [] = refl
from_high_first-be_value v (b ∷ bs) = from_high_first-be_value (v * 256 + b) bs

low_first-le_value : (bs : List ℕ) → All IsByte bs → low_first (length bs) (le_value bs) ≡ bs
low_first-le_value [] all = refl
low_first-le_value (b ∷ bs) all =
    let low : (b + 256 * le_value bs) % 256 ≡ b = omega (arith, all.0) in
    let high : (b + 256 * le_value bs) / 256 ≡ le_value bs = omega (arith, all.0) in
    rw (low, high) (ap (λ (l : List ℕ). b ∷ l) (low_first-le_value bs all.1))

bswap-le_value : (bs : List ℕ) → All IsByte bs → bswap (length bs) (le_value bs) ≡ be_value 0 bs
unfolding bswap
bswap-le_value bs all =
    ap (from_high_first 0) (low_first-le_value bs all) ∙ from_high_first-be_value 0 bs

bswap-be_value : (bs : List ℕ) → All IsByte bs → bswap (length bs) (be_value 0 bs) ≡ le_value bs
bswap-be_value bs all =
    let turned = onto bs [] in
    let size : length turned ≡ length bs = omega (arith, length-onto bs []) in
    ap (bswap (length bs)) (sym (le_value-onto bs []))
    ∙ ap (λ (n : ℕ). bswap n (le_value turned)) (sym size)
    ∙ bswap-le_value turned (onto-All bs [] all tt)
    ∙ sym (le_value-onto turned [])
    ∙ ap le_value (onto-onto bs [])

abbrev pub opposite : ByteOrder → ByteOrder
opposite lsb = msb
opposite msb = lsb

bswap-order_value :
    (o : ByteOrder) (bs : List ℕ)
    → All IsByte bs
    → bswap (length bs) (order_value (opposite o) bs) ≡ order_value o bs
bswap-order_value lsb bs all = bswap-be_value bs all
bswap-order_value msb bs all = bswap-le_value bs all

-- The two shorter cases of the switch do the same.
swizzle_pair : (v : ℕ) → v < 65536 → bit_or (bit_and v 0xff * 256) (v / 256) ≡ bswap 2 v
unfolding bswap
swizzle_pair v h =
    let joined : bit_or (v / 256) (v % 256 * 2 ^ 8) ≡ v / 256 + v % 256 * 2 ^ 8 =
      bit_or_disjoint 8 (v / 256) (v % 256) (omega arith) in
    rw (low_byte v h) (bit_or_comm (v % 256 * 256) (v / 256) ∙ omega (arith, joined))

-- In different orders, `swizzle` turns the bytes round.
swizzle_turned :
    (host : ByteOrder) (n v : ℕ) (from to : ElfOrder)
    → 1 ≤ n
    → v < 256 ^ n
    → same_order (resolve_order host from) (resolve_order host to) ≡ false
    → swizzle host n v from to ≡ bswap n v
unfolding swizzle bswap
swizzle_turned host n v from to some_byte fits apart = elim (Bool-cases (n == 1)) [
  | inl is ↦
      let one : n ≡ 1 = (==_iff n 1).0 is in
      let small : v < 256 = subst (λ k. v < 256 ^ k) one fits in
      rw (apart, is) (omega (arith) ∙ ap (λ (k : ℕ). bswap k v) (sym one))
  | inr not_one ↦ elim (Bool-cases (n == 2)) [
    | inl is ↦
        let two : n ≡ 2 = (==_iff n 2).0 is in
        rw (apart, not_one, is)
          (swizzle_pair v (subst (λ k. v < 256 ^ k) two fits) ∙ ap (λ (k : ℕ). bswap k v) (sym two))
    | inr not_two ↦ rw (apart, not_one, not_two) refl
  ]
]

swizzle_kept :
    (host : ByteOrder) (n v : ℕ) (from to : ElfOrder)
    → same_order (resolve_order host from) (resolve_order host to) ≡ true
    → swizzle host n v from to ≡ v
unfolding swizzle
swizzle_kept host n v from to same = rw same refl

power_byte : (n : ℕ) → 256 ^ suc n ≡ 256 * 256 ^ n
power_byte n = omega arith

le_value-fits : (bs : List ℕ) → All IsByte bs → le_value bs < 256 ^ length bs
le_value-fits [] all = omega arith
le_value-fits (b ∷ bs) all = omega (arith, power_byte (length bs), le_value-fits bs all.1, all.0)

be_value-fits : (bs : List ℕ) → All IsByte bs → be_value 0 bs < 256 ^ length bs
be_value-fits bs all =
    subst (λ k. be_value 0 bs < 256 ^ k) (omega (arith, length-onto bs []))
      (subst (λ v. v < 256 ^ length (onto bs [])) (le_value-onto bs [])
        (le_value-fits (onto bs []) (onto-All bs [] all tt)))

order_value-fits :
    (o : ByteOrder) (bs : List ℕ) → All IsByte bs → order_value o bs < 256 ^ length bs
order_value-fits lsb bs all = le_value-fits bs all
order_value-fits msb bs all = be_value-fits bs all

order_cases :
    (a b : ByteOrder)
    → ((same_order a b ≡ true) × (a ≡ b)) ⊎ ((same_order a b ≡ false) × (b ≡ opposite a))
order_cases lsb lsb = inl (refl, refl)
order_cases lsb msb = inr (refl, refl)
order_cases msb lsb = inr (refl, refl)
order_cases msb msb = inl (refl, refl)

-- A field of a file in the order `from`, read from memory in the order of the machine and put
-- through `swizzle`, is the number that its bytes stand for in the order of the file, whatever
-- the order of the machine.
pub swizzle-order_value :
    (host from : ByteOrder) (bs : List ℕ)
    → All IsByte bs
    → 1 ≤ length bs
    → swizzle host (length bs) (order_value host bs) (resolved from) native ≡ order_value from bs
unfolding resolve_order
swizzle-order_value host from bs all some_byte = elim (order_cases from host) [
  | inl (same, is) ↦
      swizzle_kept host (length bs) (order_value host bs) (resolved from) native same
      ∙ ap (λ (o : ByteOrder). order_value o bs) (sym is)
  | inr (apart, is) ↦
      swizzle_turned host (length bs) (order_value host bs) (resolved from) native some_byte
        (order_value-fits host bs all) apart
      ∙ ap (λ (o : ByteOrder). bswap (length bs) (order_value o bs)) is
      ∙ bswap-order_value from bs all
]

low_first-bytes :
    (n v : ℕ)
    → v < 256 ^ n
    → All IsByte (low_first n v) × (length (low_first n v) ≡ n) × (le_value (low_first n v) ≡ v)
low_first-bytes zero v h = (tt, refl, omega arith)
low_first-bytes (suc n) v h =
    let (all, size, value) = low_first-bytes n (v / 256) (omega (arith, power_byte n)) in
    ((omega arith, all), omega (arith, size), omega (arith, value))

bswap-bswap : (n v : ℕ) → v < 256 ^ n → (bswap n (bswap n v) ≡ v) × (bswap n v < 256 ^ n)
bswap-bswap n v h =
    let bs = low_first n v in
    let (all, size, value) = low_first-bytes n v h in
    let once : bswap n v ≡ be_value 0 bs =
      ap (bswap n) (sym value)
      ∙ ap (λ (k : ℕ). bswap k (le_value bs)) (sym size)
      ∙ bswap-le_value bs all in
    (
      ap (bswap n) once
          ∙ ap (λ (k : ℕ). bswap k (be_value 0 bs)) (sym size)
          ∙ bswap-be_value bs all
          ∙ value,
      subst (λ w. w < 256 ^ n) (sym once)
          (subst (λ k. be_value 0 bs < 256 ^ k) size (be_value-fits bs all)),
    )

same_order_comm : (a b : ByteOrder) → same_order a b ≡ same_order b a
same_order_comm lsb lsb = refl
same_order_comm lsb msb = refl
same_order_comm msb lsb = refl
same_order_comm msb msb = refl

-- `swizzle` from one order to another and back gives the number again, for all orders and every
-- number of the type.
swizzle_back :
    (host : ByteOrder) (n v : ℕ) (from to : ElfOrder)
    → 1 ≤ n
    → v < 256 ^ n
    → swizzle host n (swizzle host n v from to) to from ≡ v
swizzle_back host n v from to some_byte fits =
    elim (Bool-cases (same_order (resolve_order host from) (resolve_order host to))) [
      | inl same ↦
          let same' = same_order_comm (resolve_order host to) (resolve_order host from) ∙ same in
          swizzle_kept host n _ to from same' ∙ swizzle_kept host n v from to same
      | inr apart ↦
          let apart' = same_order_comm (resolve_order host to) (resolve_order host from) ∙ apart in
          let (twice, small) = bswap-bswap n v fits in
          ap (λ (w : ℕ). swizzle host n w to from)
            (swizzle_turned host n v from to some_byte fits apart)
          ∙ swizzle_turned host n (bswap n v) to from some_byte small apart'
          ∙ twice
    ]
