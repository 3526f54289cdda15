-- ===== src/Dwarf/Cursor/Fixed.antt =====
-- `cursor::fixed` and `cursor::ensure`: the bytes in either order, bounds, and memory safety.
use mathlib.Core.Path.{subst}
use native.Mathlib.Nat.{pow-le-pow_right, mod-eq_of_lt}
use native.Mathlib.Numerals.{towards_suc}
use native.Mathlib.Decide.{dec_le}
use libelfin.Prelude.{
  ℕ, suc, ◌+◌, ◌-◌, ◌*◌, ◌%◌, ◌^◌, ◌≤◌, ◌<◌, ◌≡◌, refl, ap, ◌∙◌, ◌⊎◌, inl, inr, Bool, true, false,
  ◌||◌, List, [], ◌∷◌, arith, bit_or, ltb, lt→ltb, le→not_ltb, le→leb, lt→not_leb, length, All,
}
use libelfin.Prelude.Bits.{bit_or_disjoint, bit_or_comm}
use libelfin.Result.{ok, err, underflow_error}
use libelfin.Word.{u64_mod, sub64, IsByte}
use libelfin.Dwarf.Section.{ByteOrder, lsb, msb}
use libelfin.Dwarf.Cursor.{Cursor, ensure, fixed_lsb, fixed_msb, fixed_value, fixed}
use libelfin.Dwarf.Cursor.Image.{InImage, Holds, read_byte-Holds, Holds-range}

-- The number that bytes stand for, lowest byte first, and highest byte first behind `v`.
abbrev pub le_value : List ℕ → ℕ
le_value [] = 0
le_value (b ∷ bs) = b + 256 * le_value bs

abbrev pub be_value : ℕ → List ℕ → ℕ
be_value v [] = v
be_value v (b ∷ bs) = be_value (v * 256 + b) bs

abbrev pub order_value : ByteOrder → List ℕ → ℕ
order_value lsb bs = le_value bs
order_value msb bs = be_value 0 bs

pow_byte : (i : ℕ) → 2 ^ ((i + 1) * 8) ≡ 256 * 2 ^ (i * 8)
pow_byte i = let e : (i + 1) * 8 ≡ i * 8 + 8 = omega arith in rw e (simp towards_suc (omega arith))

Holds-shift :
    (mem : List ℕ) (p i : ℕ) (bs : List ℕ) → Holds mem (p + i + 1) bs → Holds mem (p + (i + 1)) bs
Holds-shift mem p i bs h =
    let e : p + i + 1 ≡ p + (i + 1) = omega arith in subst (λ q. Holds mem q bs) e h

byte_bound : (v b i : ℕ) → v < 2 ^ (i * 8) → IsByte b → v + b * 2 ^ (i * 8) < 2 ^ ((i + 1) * 8)
byte_bound v b i hv hb = rw pow_byte (grind arith)

fixed_lsb_lem :
    (bs mem : List ℕ) (i p v : ℕ)
    → All IsByte bs
    → Holds mem (p + i) bs
    → i + length bs ≤ 8
    → v < 2 ^ (i * 8)
    → fixed_lsb (length bs) i mem p v ≡ ok (v + le_value bs * 2 ^ (i * 8))
unfolding fixed_lsb
fixed_lsb_lem [] mem i p v all at_p hi hv = ap ok (omega arith)
fixed_lsb_lem (b ∷ bs) mem i p v all at_p hi hv =
    let room : 2 ^ (i * 8) ≤ 2 ^ 56 =
      pow-le-pow_right {n = 2} (omega arith) {j = 56} (omega arith) in
    let grown = byte_bound v b i hv all.0 in
    let room' : 2 ^ ((i + 1) * 8) ≤ 2 ^ 64 =
      pow-le-pow_right {n = 2} (omega arith) {j = 64} (omega arith) in
    let fits : (b * 2 ^ (i * 8)) % u64_mod ≡ b * 2 ^ (i * 8) = omega arith in
    let joined = bit_or_disjoint (i * 8) v b hv in
    let later =
      fixed_lsb_lem bs mem (i + 1) p (v + b * 2 ^ (i * 8)) all.1 (Holds-shift mem p i bs at_p.1)
        (omega arith) grown in
    rw (read_byte-Holds mem (p + i) b at_p.0, fits, joined)
      (later ∙ ap ok (omega (arith, ap (λ (t : ℕ). le_value bs * t) (pow_byte i))))

fixed_msb_lem :
    (bs mem : List ℕ) (i p v : ℕ)
    → All IsByte bs
    → Holds mem (p + i) bs
    → i + length bs ≤ 8
    → v < 2 ^ (i * 8)
    → fixed_msb (length bs) i mem p v ≡ ok (be_value v bs)
unfolding fixed_msb
fixed_msb_lem [] mem i p v all at_p hi hv = refl
fixed_msb_lem (b ∷ bs) mem i p v all at_p hi hv =
    let room : 2 ^ (i * 8) ≤ 2 ^ 56 =
      pow-le-pow_right {n = 2} (omega arith) {j = 56} (omega arith) in
    let fits : (v * 2 ^ 8) % u64_mod ≡ v * 256 = omega arith in
    let joined : bit_or (v * 256) b ≡ v * 256 + b =
      bit_or_comm (v * 256) b ∙ bit_or_disjoint 8 b v all.0 ∙ omega arith in
    let later =
      fixed_msb_lem bs mem (i + 1) p (v * 256 + b) all.1 (Holds-shift mem p i bs at_p.1)
        (omega arith) (omega (arith, pow_byte i)) in
    rw (read_byte-Holds mem (p + i) b at_p.0, fits, joined) later

le_value-lt : (bs : List ℕ) → All IsByte bs → le_value bs < 2 ^ (length bs * 8)
le_value-lt [] all = omega arith
le_value-lt (b ∷ bs) all =
    let e : suc (length bs) * 8 ≡ (length bs + 1) * 8 = omega arith in
    rw e (omega (arith, pow_byte (length bs), le_value-lt bs all.1))

be_value-lt :
    (bs : List ℕ) (i v : ℕ)
    → All IsByte bs
    → v < 2 ^ (i * 8)
    → be_value v bs < 2 ^ ((i + length bs) * 8)
be_value-lt [] i v all hv = let e : (i + 0) * 8 ≡ i * 8 = omega arith in rw e hv
be_value-lt (b ∷ bs) i v all hv =
    let e : (i + suc (length bs)) * 8 ≡ (i + 1 + length bs) * 8 = omega arith in
    rw e (be_value-lt bs (i + 1) (v * 256 + b) all.1 (omega (arith, pow_byte i)))

order_value-lt :
    (o : ByteOrder) (bs : List ℕ) → All IsByte bs → order_value o bs < 2 ^ (length bs * 8)
order_value-lt lsb bs all = le_value-lt bs all
order_value-lt msb bs all =
    let e : (0 + length bs) * 8 ≡ length bs * 8 = omega arith in
    subst (λ t. be_value 0 bs < 2 ^ t) e (be_value-lt bs 0 0 all (omega arith))

pub fixed_value_lem :
    (o : ByteOrder) (bs mem : List ℕ) (p : ℕ)
    → All IsByte bs
    → Holds mem p bs
    → length bs ≤ 8
    → fixed_value o (length bs) mem p ≡ ok (order_value o bs)
fixed_value_lem lsb bs mem p all at_p short =
    let e : p ≡ p + 0 = omega arith in
    fixed_lsb_lem bs mem 0 p 0 all (subst (λ q. Holds mem q bs) e at_p) (omega arith) (omega arith)
    ∙ ap ok (omega arith)
fixed_value_lem msb bs mem p all at_p short =
    let e : p ≡ p + 0 = omega arith in
    fixed_msb_lem bs mem 0 p 0 all (subst (λ q. Holds mem q bs) e at_p) (omega arith) (omega arith)

-- The two tests of `ensure` agree with the bounds of the section.
pub ensure_within :
    (n : ℕ) (c : Cursor)
    → c.sec.end < u64_mod
    → c.pos < c.sec.end
    → c.pos + n ≤ c.sec.end
    → ensure n c ≡ ok tt
unfolding ensure
ensure_within n c space inside fits =
    let left : sub64 c.sec.end c.pos ≡ c.sec.end - c.pos = omega arith in
    rw (left, le→not_ltb (c.sec.end - c.pos) n (omega arith), lt→not_leb c.sec.end c.pos inside)

or_true : (b : Bool) → (b || true) ≡ true
or_true true = refl
or_true false = refl

pub ensure_beyond :
    (n : ℕ) (c : Cursor)
    → c.sec.end < u64_mod
    → (c.sec.end ≤ c.pos) ⊎ (c.sec.end < c.pos + n)
    → ensure n c ≡ err underflow_error
unfolding ensure
ensure_beyond n c space out = elim (dec_le c.sec.end c.pos) [
  | yes past ↦ rw (le→leb c.sec.end c.pos past, or_true (ltb (sub64 c.sec.end c.pos) n))
  | no inside ↦
      let left : sub64 c.sec.end c.pos ≡ c.sec.end - c.pos = omega arith in
      rw (left, lt→ltb (c.sec.end - c.pos) n (omega arith))
]

-- Where the cursor stands at 1 to 8 bytes of the section, `fixed` returns the number that they
-- stand for in the section's byte order, and moves the cursor past them.
pub fixed-order_value :
    (c : Cursor) (bs : List ℕ)
    → All IsByte bs
    → Holds c.sec.mem c.pos bs
    → c.sec.end < u64_mod
    → c.pos + length bs ≤ c.sec.end
    → 1 ≤ length bs
    → length bs ≤ 8
    → fixed (length bs) c ≡ ok (order_value c.sec.ord bs, record c { pos = c.pos + length bs })
unfolding fixed
fixed-order_value c bs all at_p space fits some_byte short =
    let small : order_value c.sec.ord bs % 2 ^ (length bs * 8) ≡ order_value c.sec.ord bs =
      mod-eq_of_lt (order_value-lt c.sec.ord bs all) in
    rw (
      ensure_within (length bs) c space (omega arith) fits,
      fixed_value_lem c.sec.ord bs c.sec.mem c.pos all at_p short,
      small,
    )

-- What `fixed` does at every cursor of a section that lies in the image: it reads n bytes inside
-- the section, or reports the underflow.
pub fixed_cases :
    (n : ℕ) (c : Cursor)
    → InImage c.sec
    → 1 ≤ n
    → n ≤ 8
    → ((v : ℕ) × (fixed n c ≡ ok (v, record c { pos = c.pos + n }))
        × (v < 2 ^ (n * 8))
        × (c.pos + n ≤ c.sec.end))
      ⊎ ((fixed n c ≡ err underflow_error) × (c.sec.end < c.pos + n))
unfolding fixed
fixed_cases n c img some_byte short = elim (dec_le (c.pos + n) c.sec.end) [
  | yes fits ↦ inl (inside fits)
  | no out ↦ inr (rw (ensure_beyond n c img.addressable (inr (omega arith))), omega arith)
]
  where
    inside :
        c.pos + n ≤ c.sec.end
        → (v : ℕ) × (fixed n c ≡ ok (v, record c { pos = c.pos + n }))
          × (v < 2 ^ (n * 8))
          × (c.pos + n ≤ c.sec.end)
    inside fits =
        let within = img.within in
        let (bs, at_p, byte, len) = Holds-range n c.sec.mem c.pos img.bytes (omega arith) in
        let bound =
          subst (λ k. order_value c.sec.ord bs < 2 ^ (k * 8)) len
            (order_value-lt c.sec.ord bs byte) in
        let read =
          fixed-order_value c bs byte at_p img.addressable (omega arith) (omega arith)
            (omega arith) in
        (
          order_value c.sec.ord bs,
          subst (λ k. fixed k c ≡ ok (order_value c.sec.ord bs, record c { pos = c.pos + k })) len
              read,
          bound,
          fits,
        )
