-- ===== src/Dwarf/Cursor/Sleb.antt =====
-- `cursor::sleb128` against the two's complement reading of a LEB128 number.
use native.Mathlib.Decide.{dec_lt}
use native.Mathlib.Nat.{pow-le-pow_right}
use libelfin.Prelude.{
  ℕ, zero, suc, ◌+◌, ◌-◌, ◌*◌, ◌/◌, ◌%◌, ◌^◌, ◌≤◌, ◌<◌, ◌≡◌, refl, ap, ◌∙◌, Bool, true, false, some,
  List, [], ◌∷◌, arith, bit_and, bit_or, ltb, leb, lt→ltb, le→not_ltb, ◌==◌, ==_iff, if◌then◌else◌,
  length, get_elem?, Bool-cases, inl, inr,
}
use libelfin.Prelude.Bits.{sign_bit, bit_or_disjoint, every, every_below}
use libelfin.Result.{Result, ok}
use libelfin.Word.{u64_mod, neg64, IsByte}
use libelfin.Dwarf.Cursor.{Cursor, sleb128_loop, sleb128_finish, sleb128}
use libelfin.Dwarf.Cursor.Image.{Holds, read_byte-Holds}
use libelfin.Dwarf.Cursor.Leb.{
  leb_value, IsLeb, join_group, join_last, group_bound, group_fits, split_value, last_test,
  more_test,
}

-- Bit 6 of the last byte is the sign.
abbrev pub leb_negative : List ℕ → Bool
leb_negative [] = false
leb_negative (b ∷ []) = leb 64 b
leb_negative (b ∷ c ∷ bs) = leb_negative (c ∷ bs)

-- The number `v * 2 ^ s + r`, less `2 ^ t` if it is negative, as a pattern of 64 bits.
abbrev pub sleb_pattern : Bool → ℕ → ℕ → ℕ
sleb_pattern negative v t = if negative then (v + 2 ^ 128 - 2 ^ t) % u64_mod else v % u64_mod

-- What DWARF gives to a signed LEB128 number, as the pattern of an int64_t.
abbrev pub sleb_value : List ℕ → ℕ
sleb_value bs = sleb_pattern (leb_negative bs) (leb_value bs) (7 * length bs)

high_ones_table :
    every (λ j. neg64 (2 ^ (7 * j + 7)) == (u64_mod / 2 ^ (7 * j + 7) - 1) * 2 ^ (7 * j + 7)) 9
    ≡ true
unfolding every
high_ones_table = refl

-- `-((uint64_t)1 << t)` has ones from bit t on.
high_ones : (j t : ℕ) → j < 9 → t ≡ 7 * j + 7 → neg64 (2 ^ t) ≡ (u64_mod / 2 ^ t - 1) * 2 ^ t
high_ones j t h e = rw e ((==_iff _ _).0 (every_below _ 9 j high_ones_table h))

sign_test : (b : ℕ) → b < 128 → ltb 0 (bit_and b 0x40) ≡ leb 64 b
sign_test b h = rw (sign_bit b (omega arith)) (ground arith)

-- Sign extension of what is read up to bit t.
extend :
    (j t v : ℕ)
    → j < 9
    → t ≡ 7 * j + 7
    → v < 2 ^ t
    → 2 ^ t ≤ 2 ^ 63
    → bit_or v (neg64 (2 ^ t)) ≡ sleb_pattern true v t
extend j t v hj ht hv top =
    let ones = high_ones j t hj ht in
    rw ones (bit_or_disjoint t v (u64_mod / 2 ^ t - 1) hv ∙ omega (arith, ones))

-- The last byte at bit s: `sleb128_finish` makes the pattern.
finish_low :
    (r b s j : ℕ)
    → b < 128
    → s ≡ 7 * j
    → s ≤ 56
    → r < 2 ^ s
    → sleb128_finish b ((r + b % 128 * 2 ^ s) % u64_mod) (s + 7)
      ≡ sleb_pattern (leb 64 b) (r + b % 128 * 2 ^ s) (s + 7)
finish_low r b s j hb hj hs hr =
    let fits = group_fits r (b % 128) s hs hr (omega arith) in
    let bound = group_bound r (b % 128) s hr (omega arith) in
    let same : (r + b % 128 * 2 ^ s) % u64_mod ≡ r + b % 128 * 2 ^ s = omega arith in
    let top : 2 ^ (s + 7) ≤ 2 ^ 63 =
      pow-le-pow_right {n = 2} (omega arith) {j = 63} (omega arith) in
    let spread = extend j (s + 7) (r + b % 128 * 2 ^ s) (omega arith) (omega arith) bound top in
    rw (same, lt→ltb (s + 7) 64 (omega arith), sign_test b hb)
      (elim (Bool-cases (leb 64 b)) [ inl e ↦ rw e spread | inr e ↦ rw e ])

finish_top :
    (b v s t : ℕ)
    → s ≡ 63
    → t ≡ s + 7
    → sleb128_finish b (v % u64_mod) t ≡ sleb_pattern (leb 64 b) v t
finish_top b v s t hs ht =
    let t_is : t ≡ 70 = omega arith in
    rw (le→not_ltb t 64 (omega arith), t_is)
      (elim (Bool-cases (leb 64 b)) [ inl e ↦ rw e (omega arith) | inr e ↦ rw e ])

finish_lem :
    (r b s j : ℕ)
    → b < 128
    → s ≡ 7 * j
    → s ≤ 63
    → r < 2 ^ s
    → sleb128_finish b ((r + b % 128 * 2 ^ s) % u64_mod) (s + 7)
      ≡ sleb_pattern (leb 64 b) (r + b % 128 * 2 ^ s) (s + 7)
finish_lem r b s j hb hj hs hr = elim (dec_lt s 57) [
  | yes low ↦ finish_low r b s j hb hj (omega arith) hr
  | no high ↦ finish_top b (r + b % 128 * 2 ^ s) s (s + 7) (omega arith) refl
]

sleb128_last :
    (n : ℕ) (mem : List ℕ) (p r s j b : ℕ)
    → b < 128
    → get_elem? mem p ≡ some b
    → s ≡ 7 * j
    → s ≤ 63
    → r < 2 ^ s
    → sleb128_loop (suc n) mem p r s
      ≡ ok (sleb_pattern (leb 64 b) (r + b % 128 * 2 ^ s) (s + 7), p + 1)
unfolding sleb128_loop
sleb128_last n mem p r s j b hb at_p hj hs hr =
    rw
      (
        read_byte-Holds mem p b at_p,
        lt→ltb s 64 (omega arith),
        last_test b hb,
        join_last r b s j hb hj hs hr,
      )
      (ap (λ v. ok (v, p + 1)) (finish_lem r b s j hb hj hs hr))

sleb128_more :
    (n : ℕ) (mem : List ℕ) (p r s b : ℕ)
    → 128 ≤ b
    → IsByte b
    → get_elem? mem p ≡ some b
    → s ≤ 56
    → r < 2 ^ s
    → sleb128_loop (suc n) mem p r s ≡ sleb128_loop n mem (p + 1) (r + b % 128 * 2 ^ s) (s + 7)
unfolding sleb128_loop
sleb128_more n mem p r s b hb byte at_p hs hr =
    let fits = group_fits r (b % 128) s hs hr (omega arith) in
    rw (
      read_byte-Holds mem p b at_p,
      lt→ltb s 64 (omega arith),
      more_test b hb byte,
      join_group r b s byte hr (omega arith),
    )

abbrev found : ℕ → ℕ → Result (ℕ × ℕ)
found v p = ok (v, p)

-- The pattern depends on the number and its width alone.
same_pattern :
    (negative : Bool) (v v' t t' p p' : ℕ)
    → v ≡ v'
    → t ≡ t'
    → p ≡ p'
    → found (sleb_pattern negative v t) p ≡ found (sleb_pattern negative v' t') p'
same_pattern negative v v' t t' p p' hv ht hp = rw (hv, ht, hp)

sleb128_loop_lem :
    (bs : List ℕ) (n : ℕ) (mem : List ℕ) (p r s j : ℕ)
    → IsLeb bs
    → Holds mem p bs
    → length bs ≤ n
    → s ≡ 7 * j
    → s + 7 * length bs ≤ 70
    → r < 2 ^ s
    → sleb128_loop n mem p r s
      ≡ ok (
        sleb_pattern (leb_negative bs) (r + leb_value bs * 2 ^ s) (s + 7 * length bs),
        p + length bs,
      )
sleb128_loop_lem [] n mem p r s j form at_p hn hj hs hr = absurd form
sleb128_loop_lem (b ∷ bs) zero mem p r s j form at_p hn hj hs hr = absurd (omega arith)
sleb128_loop_lem (b ∷ []) (suc n) mem p r s j form at_p hn hj hs hr =
    sleb128_last n mem p r s j b form at_p.0 hj (omega arith) hr
    ∙ same_pattern _ _ _ _ _ _ _ (omega arith) (omega arith) (omega arith)
sleb128_loop_lem (b ∷ c ∷ bs) (suc n) mem p r s j form at_p hn hj hs hr =
    let split = split_value b (leb_value (c ∷ bs)) s in
    sleb128_more n mem p r s b form.0 form.1 at_p.0 (omega arith) hr
    ∙ sleb128_loop_lem (c ∷ bs) n mem (p + 1) (r + b % 128 * 2 ^ s) (s + 7) (j + 1) form.2 at_p.1
        (omega arith) (omega arith) (omega arith) (group_bound r (b % 128) s hr (omega arith))
    ∙ same_pattern _ _ _ _ _ _ _ (omega arith) (omega arith) (omega arith)

-- Where the cursor stands at a LEB128 number of at most ten bytes, all of them in the section,
-- `sleb128` returns the signed number as a pattern of 64 bits, and leaves the cursor behind its
-- last byte.
pub sleb128-sleb_value :
    (c : Cursor) (bs : List ℕ)
    → IsLeb bs
    → Holds c.sec.mem c.pos bs
    → c.pos + length bs ≤ c.sec.end
    → length bs ≤ 10
    → sleb128 c ≡ ok (sleb_value bs, record c { pos = c.pos + length bs })
unfolding sleb128
sleb128-sleb_value c bs form at_p fits short =
    let whole =
      sleb128_loop_lem bs (c.sec.end - c.pos) c.sec.mem c.pos 0 0 0 form at_p (omega arith) refl
        (omega arith) (omega arith)
      ∙ same_pattern (leb_negative bs) _ (leb_value bs) _ (7 * length bs) _ _ (omega arith)
          (omega arith) refl in
    rw whole
