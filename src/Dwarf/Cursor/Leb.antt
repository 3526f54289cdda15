-- ===== src/Dwarf/Cursor/Leb.antt =====
-- `cursor::uleb128` and `cursor::sleb128` against the values that DWARF gives to LEB128 numbers.
use mathlib.Core.Path.{ap₂, subst}
use native.Mathlib.Decide.{dec_lt}
use native.Mathlib.Nat.{le_trans, pow-le-pow_right}
use native.Mathlib.Numerals.{towards_suc}
use libelfin.Prelude.{
  ℕ, zero, suc, ◌+◌, ◌-◌, ◌*◌, ◌%◌, ◌^◌, ◌≤◌, ◌<◌, ◌≡◌, refl, ap, true, false, some, List, [], ◌∷◌,
  arith, bit_and, bit_or, lt→ltb, ◌==◌, ◌∙◌, length, get_elem?,
}
use libelfin.Prelude.Bits.{low_bits, top_bit, bit_or_disjoint}
use libelfin.Result.{ok}
use libelfin.Word.{u64_mod, shl64, IsByte}
use libelfin.Dwarf.Cursor.{Cursor, uleb128_loop, uleb128}
use libelfin.Dwarf.Cursor.Image.{Holds, read_byte-Holds}

-- The groups of seven bits, lowest first.
abbrev pub leb_value : List ℕ → ℕ
leb_value [] = 0
leb_value (b ∷ bs) = b % 128 + 128 * leb_value bs

-- The top bit is set on every byte but the last.
abbrev pub IsLeb : List ℕ → Type 0
IsLeb [] = ⊥
IsLeb (b ∷ []) = b < 128
IsLeb (b ∷ c ∷ bs) = (128 ≤ b) × IsByte b × IsLeb (c ∷ bs)

shift_seven : (s : ℕ) → 2 ^ (s + 7) ≡ 128 * 2 ^ s
shift_seven s = simp towards_suc (omega arith)

-- One group joins the bits read so far.
pub join_group :
    (r b s : ℕ)
    → IsByte b
    → r < 2 ^ s
    → r + b % 128 * 2 ^ s < u64_mod
    → bit_or r (shl64 (bit_and b 0x7f) s) ≡ r + b % 128 * 2 ^ s
join_group r b s hb hr fits =
    let small : (b % 128 * 2 ^ s) % u64_mod ≡ b % 128 * 2 ^ s = omega arith in
    rw (low_bits b hb, small) (bit_or_disjoint s r (b % 128) hr)

pub group_bound : (r g s : ℕ) → r < 2 ^ s → g < 128 → r + g * 2 ^ s < 2 ^ (s + 7)
group_bound r g s hr hg = rw shift_seven (grind arith)

pub split_value : (b v s : ℕ) → (b % 128 + 128 * v) * 2 ^ s ≡ b % 128 * 2 ^ s + v * 2 ^ (s + 7)
split_value b v s = omega (arith, ap (λ (t : ℕ). v * t) (shift_seven s))

-- The test of the top bit on a last byte, and on a byte that another follows.
pub last_test : (b : ℕ) → b < 128 → (bit_and b 0x80 == 0) ≡ true
last_test b h = rw (top_bit b (omega arith)) (ground arith)

pub more_test : (b : ℕ) → 128 ≤ b → IsByte b → (bit_and b 0x80 == 0) ≡ false
more_test b h hb = rw (top_bit b hb) (ground arith)

-- Below bit 63 a group fits whatever it is; at bit 63 all but one of its bits are shifted out.
pub group_fits : (r g s : ℕ) → s ≤ 56 → r < 2 ^ s → g < 128 → r + g * 2 ^ s < 2 ^ 63
group_fits r g s hs hr hg =
    le_trans (group_bound r g s hr hg)
      (pow-le-pow_right {n = 2} (omega arith) {j = 63} (omega arith))

pub join_last :
    (r b s j : ℕ)
    → b < 128
    → s ≡ 7 * j
    → s ≤ 63
    → r < 2 ^ s
    → bit_or r (shl64 (bit_and b 0x7f) s) ≡ (r + b % 128 * 2 ^ s) % u64_mod
join_last r b s j hb hj hs hr = elim (dec_lt s 57) [
  | yes low ↦
      let fits = group_fits r (b % 128) s (omega arith) hr (omega arith) in
      join_group r b s (omega arith) hr (omega arith) ∙ omega arith
  | no high ↦ join_top (omega arith)
]
  where
    join_top : s ≡ 63 → bit_or r (shl64 (bit_and b 0x7f) s) ≡ (r + b % 128 * 2 ^ s) % u64_mod
    join_top e =
        let small : r < 2 ^ 63 = subst (λ t. r < 2 ^ t) e hr in
        let cut : (b % 128 * 2 ^ 63) % u64_mod ≡ b % 2 * 2 ^ 63 = omega arith in
        rw (e, low_bits b (omega arith), cut) (bit_or_disjoint 63 r (b % 2) small ∙ omega arith)

uleb128_last :
    (n : ℕ) (mem : List ℕ) (p r s j b : ℕ)
    → b < 128
    → get_elem? mem p ≡ some b
    → s ≡ 7 * j
    → s ≤ 63
    → r < 2 ^ s
    → uleb128_loop (suc n) mem p r s ≡ ok ((r + b % 128 * 2 ^ s) % u64_mod, p + 1)
unfolding uleb128_loop
uleb128_last n mem p r s j b hb at_p hj hs hr = rw (
  read_byte-Holds mem p b at_p,
  lt→ltb s 64 (omega arith),
  last_test b hb,
  join_last r b s j hb hj hs hr,
)

uleb128_more :
    (n : ℕ) (mem : List ℕ) (p r s b : ℕ)
    → 128 ≤ b
    → IsByte b
    → get_elem? mem p ≡ some b
    → s ≤ 56
    → r < 2 ^ s
    → uleb128_loop (suc n) mem p r s ≡ uleb128_loop n mem (p + 1) (r + b % 128 * 2 ^ s) (s + 7)
unfolding uleb128_loop
uleb128_more n mem p r s b hb byte at_p hs hr =
    let fits = group_fits r (b % 128) s hs hr (omega arith) in
    rw (
      read_byte-Holds mem p b at_p,
      lt→ltb s 64 (omega arith),
      more_test b hb byte,
      join_group r b s byte hr (omega arith),
    )

uleb128_loop_lem :
    (bs : List ℕ) (n : ℕ) (mem : List ℕ) (p r s j : ℕ)
    → IsLeb bs
    → Holds mem p bs
    → length bs ≤ n
    → s ≡ 7 * j
    → s + 7 * length bs ≤ 70
    → r < 2 ^ s
    → uleb128_loop n mem p r s ≡ ok ((r + leb_value bs * 2 ^ s) % u64_mod, p + length bs)
uleb128_loop_lem [] n mem p r s j leb at_p hn hj hs hr = absurd leb
uleb128_loop_lem (b ∷ bs) zero mem p r s j leb at_p hn hj hs hr = absurd (omega arith)
uleb128_loop_lem (b ∷ []) (suc n) mem p r s j leb at_p hn hj hs hr =
    uleb128_last n mem p r s j b leb at_p.0 hj (omega arith) hr
    ∙ ap₂ (λ v q. ok (v, q)) (omega arith) (omega arith)
uleb128_loop_lem (b ∷ c ∷ bs) (suc n) mem p r s j leb at_p hn hj hs hr =
    let split = split_value b (leb_value (c ∷ bs)) s in
    uleb128_more n mem p r s b leb.0 leb.1 at_p.0 (omega arith) hr
    ∙ uleb128_loop_lem (c ∷ bs) n mem (p + 1) (r + b % 128 * 2 ^ s) (s + 7) (j + 1) leb.2 at_p.1
        (omega arith) (omega arith) (omega arith) (group_bound r (b % 128) s hr (omega arith))
    ∙ ap₂ (λ v q. ok (v, q)) (omega arith) (omega arith)

-- Where the cursor stands at a LEB128 number of at most ten bytes, all of them in the section,
-- `uleb128` returns the number, modulo 2 ^ 64, and leaves the cursor behind its last byte.
pub uleb128-leb_value :
    (c : Cursor) (bs : List ℕ)
    → IsLeb bs
    → Holds c.sec.mem c.pos bs
    → c.pos + length bs ≤ c.sec.end
    → length bs ≤ 10
    → uleb128 c ≡ ok (leb_value bs % u64_mod, record c { pos = c.pos + length bs })
unfolding uleb128
uleb128-leb_value c bs leb at_p fits short =
    rw
      (uleb128_loop_lem bs (c.sec.end - c.pos) c.sec.mem c.pos 0 0 0 leb at_p (omega arith) refl
        (omega arith) (omega arith))
      (ap (λ v. ok (v, record c { pos = c.pos + length bs })) (omega arith))
