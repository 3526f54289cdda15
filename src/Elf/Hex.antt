-- ===== src/Elf/Hex.antt =====
-- elf/to_hex.hh: `to_hex`, at an unsigned type of `width` bytes. A text is the list of its characters.
use libelfin.Prelude.{
  ℕ, zero, suc, ◌+◌, ◌-◌, ◌*◌, ◌/◌, ◌%◌, ◌^◌, ◌<◌, ◌≤◌, ◌≡◌, ◌∙◌, ap, inl, inr, List, [], ◌∷◌,
  arith, ltb, ◌==◌, if◌then◌else◌, Bool-cases, length,
}

-- `'0' + digit` or `'a' + (digit - 10)`
abbrev pub digit_char : ℕ → ℕ
digit_char digit = if ltb digit 10 then 48 + digit else 97 + (digit - 10)

-- `while (v && pos >= buf)`: the buffer is filled from its end, and has as many places left as the
-- first argument says.
unfoldable pub fill : ℕ → ℕ → List ℕ → List ℕ
fill zero v written = written
fill (suc places) v written =
    let further = fill places (v / 16) (digit_char (v % 16) ∷ written) in
    if v == 0 then written else further

unfoldable pub to_hex : ℕ → ℕ → List ℕ
to_hex width v = if v == 0 then 48 ∷ [] else fill (width * 2) v []

abbrev pub char_digit : ℕ → ℕ
char_digit c = if ltb c 58 then c - 48 else c - 87

-- The number that hexadecimal digits stand for, behind `v`.
unfoldable pub hex_value : ℕ → List ℕ → ℕ
hex_value v [] = v
hex_value v (c ∷ cs) = hex_value (v * 16 + char_digit c) cs

char_digit-digit_char : (d : ℕ) → d < 16 → char_digit (digit_char d) ≡ d
char_digit-digit_char d h = ground arith

hex_value-fill :
    (places v : ℕ) (written : List ℕ)
    → v < 16 ^ places
    → hex_value 0 (fill places v written) ≡ hex_value v written
unfolding fill hex_value
hex_value-fill zero v written h =
    let none_left : v ≡ 0 = omega arith in ap (λ (n : ℕ). hex_value n written) (omega arith)
hex_value-fill (suc places) v written h = elim (Bool-cases (v == 0)) [
  | inl is ↦
      let none_left : 0 ≡ v = ground (arith, is) in
      rw is (ap (λ (n : ℕ). hex_value n written) none_left)
  | inr more ↦
      let power : 16 ^ suc places ≡ 16 * 16 ^ places = omega arith in
      let joined : v / 16 * 16 + char_digit (digit_char (v % 16)) ≡ v =
        omega (arith, char_digit-digit_char (v % 16) (omega arith)) in
      rw more (
        hex_value-fill places (v / 16) (digit_char (v % 16) ∷ written) (omega (arith, power))
        ∙ ap (λ (n : ℕ). hex_value n written) joined)
]

length-fill :
    (places v : ℕ) (written : List ℕ) → length (fill places v written) ≤ places + length written
unfolding fill
length-fill zero v written = omega arith
length-fill (suc places) v written = elim (Bool-cases (v == 0)) [
  | inl is ↦ rw is (omega arith)
  | inr more ↦ rw more (omega (arith, length-fill places (v / 16) (digit_char (v % 16) ∷ written)))
]

-- Reading back the digits that `to_hex` writes gives the number, for every number of a type of one
-- byte or more, and there are at most two digits for each byte of the type: the buffer suffices.
pub hex_value-to_hex :
    (width v : ℕ)
    → 1 ≤ width
    → v < 16 ^ (width * 2)
    → (hex_value 0 (to_hex width v) ≡ v) × (length (to_hex width v) ≤ width * 2)
unfolding to_hex hex_value
hex_value-to_hex width v some_byte fits = elim (Bool-cases (v == 0)) [
  | inl is ↦ rw is (ground (arith, is), omega arith)
  | inr more ↦
      rw more (hex_value-fill (width * 2) v [] fits, omega (arith, length-fill (width * 2) v []))
]
