-- ===== src/Dwarf/Cursor/Progress.antt =====
-- A successful read of a LEB128 number or a text moves the cursor forward inside its section.
use libelfin.Prelude.{
  ℕ, zero, suc, ◌+◌, ◌-◌, ◌*◌, ◌%◌, ◌^◌, ◌≤◌, ◌<◌, ◌≡◌, ◌≢◌, refl, ap, ◌∙◌, inl, inr, List, arith,
  bit_and, bit_or, ltb, ◌==◌, Bool-cases, true, false, if◌then◌else◌,
}
use native.Mathlib.Nat.{pow-le-pow_right}
use mathlib.Core.Path.{subst}
use libelfin.Prelude.Bits.{bit_or-lt}
use libelfin.Result.{
  Error, ok, undefined, guard, >>=-eq-ok, ok_inj, Gives, ok-Gives, bind-Gives, if-Gives,
}
use libelfin.Dwarf.Cursor.Fixed.{fixed_cases}
use libelfin.Dwarf.Cursor.Image.{InImage}
use libelfin.Dwarf.Section.{Section}
use libelfin.Dwarf.Cursor.{address, address_of_size, fixed, fixed_signed}
use libelfin.Word.{u64_mod, shl64, IsU64}
use libelfin.Dwarf.Cursor.{
  Cursor, read_byte, uleb128_loop, uleb128, sleb128_loop, sleb128, scan_string, cstr, string,
}

-- Both loops at one byte: a last byte is taken, and behind any other the loop goes on.
abbrev Moves : ℕ → ℕ → ℕ → ℕ → Type 0
Moves p n v q = (p < q) × (q ≤ p + n) × IsU64 v

joined_IsU64 : (r b s : ℕ) → IsU64 r → bit_or r (shl64 b s) < u64_mod
joined_IsU64 r b s h = bit_or-lt 64 r (shl64 b s) h (omega arith)

uleb128_loop-Moves :
    (n : ℕ) (mem : List ℕ) (p r s v q : ℕ)
    → IsU64 r
    → uleb128_loop n mem p r s ≡ ok (v, q)
    → Moves p n v q
unfolding uleb128_loop
uleb128_loop-Moves zero mem p r s v q h e = absurd (cc)
uleb128_loop-Moves (suc n) mem p r s v q h e =
    let (b, read, e1) = >>=-eq-ok (read_byte mem p) _ e in
    let (u, g, e2) = >>=-eq-ok (guard (ltb s 64) undefined) _ e1 in
    let r' = bit_or r (shl64 (bit_and b 0x7f) s) in
    let next =
      uleb128_loop-Moves n mem (p + 1) r' (s + 7) v q (joined_IsU64 r (bit_and b 0x7f) s h) in
    elim (Bool-cases (bit_and b 0x80 == 0)) [
      | inl last ↦ ground (arith, joined_IsU64 r (bit_and b 0x7f) s h, rw last at e2)
      | inr more ↦ ground (arith, next (rw more at e2))
    ]

sleb128_loop-Moves :
    (n : ℕ) (mem : List ℕ) (p r s v q : ℕ)
    → sleb128_loop n mem p r s ≡ ok (v, q)
    → (p < q) × (q ≤ p + n)
unfolding sleb128_loop
sleb128_loop-Moves zero mem p r s v q e = absurd (cc)
sleb128_loop-Moves (suc n) mem p r s v q e =
    let (b, read, e1) = >>=-eq-ok (read_byte mem p) _ e in
    let (u, g, e2) = >>=-eq-ok (guard (ltb s 64) undefined) _ e1 in
    let r' = bit_or r (shl64 (bit_and b 0x7f) s) in
    let next = sleb128_loop-Moves n mem (p + 1) r' (s + 7) v q in
    elim (Bool-cases (bit_and b 0x80 == 0)) [
      | inl last ↦ ground (arith, rw last at e2)
      | inr more ↦ ground (arith, next (rw more at e2))
    ]

-- The cursor after an operation stands in the same section, further on, and not past its end.
pub record Forward (c c' : Cursor) : Type 0 where
  pub same_section : c'.sec ≡ c.sec
  pub later : c.pos < c'.pos
  pub inside : c'.pos ≤ c.sec.end

pub uleb128-Forward :
    (c : Cursor) {v : ℕ} {c' : Cursor} → uleb128 c ≡ ok (v, c') → Forward c c' × IsU64 v
unfolding uleb128
uleb128-Forward c {v} {c'} e =
    let ((w, q), loop, e1) = >>=-eq-ok (uleb128_loop (c.sec.end - c.pos) c.sec.mem c.pos 0 0) _ e in
    let m = uleb128_loop-Moves (c.sec.end - c.pos) c.sec.mem c.pos 0 0 w q (omega arith) loop in
    ground (arith, e1, m)

pub sleb128-Forward : (c : Cursor) {v : ℕ} {c' : Cursor} → sleb128 c ≡ ok (v, c') → Forward c c'
unfolding sleb128
sleb128-Forward c {v} {c'} e =
    let ((w, q), loop, e1) = >>=-eq-ok (sleb128_loop (c.sec.end - c.pos) c.sec.mem c.pos 0 0) _ e in
    let m = sleb128_loop-Moves (c.sec.end - c.pos) c.sec.mem c.pos 0 0 w q loop in
    ground (arith, e1, m)

-- The cursor may also stay where it is.
pub record Onward (c c' : Cursor) : Type 0 where
  pub same_section : c'.sec ≡ c.sec
  pub later : c.pos ≤ c'.pos
  pub inside : c'.pos ≤ c.sec.end

pub Forward-Onward : {c c' : Cursor} → Forward c c' → Onward c c'
Forward-Onward f = record { same_section = f.same_section; later = omega arith; inside = f.inside }

pub Onward-refl : {c : Cursor} → c.pos ≤ c.sec.end → Onward c c
Onward-refl h = record { same_section = refl; later = omega arith; inside = h }

pub Onward-trans : {a b c : Cursor} → Onward a b → Onward b c → Onward a c
Onward-trans f g = record {
  same_section = g.same_section ∙ f.same_section;
  later = omega (arith, f.later, g.later);
  inside = omega (arith, f.inside, g.inside, ap (λ (s : Section). s.end) f.same_section);
}

pub fixed-Forward :
    (n : ℕ) (c : Cursor) {v : ℕ} {c' : Cursor}
    → InImage c.sec
    → 1 ≤ n
    → n ≤ 8
    → fixed n c ≡ ok (v, c')
    → Forward c c' × (v < 2 ^ (n * 8))
fixed-Forward n c {v} {c'} img lo hi e = elim (fixed_cases n c img lo hi) [
  | inl (w, read, small, fits) ↦ ground (arith, rw read at e)
  | inr (none_left, far) ↦ absurd (cc (rw none_left at e))
]

pub fixed_signed-Forward :
    (n : ℕ) (c : Cursor) {v : ℕ} {c' : Cursor}
    → InImage c.sec
    → 1 ≤ n
    → n ≤ 8
    → fixed_signed n c ≡ ok (v, c')
    → Forward c c'
unfolding fixed_signed
fixed_signed-Forward n c {v} {c'} img lo hi e =
    let ((w, d), read, e1) = >>=-eq-ok (fixed n c) _ e in
    let f = (fixed-Forward n c img lo hi read).0 in
    subst (Forward c) (ap (λ (r : ℕ × Cursor). r.1) (ok_inj e1)) f

fixed_widen :
    (k : ℕ) (c : Cursor) {v : ℕ} {c' : Cursor}
    → InImage c.sec
    → 1 ≤ k
    → k ≤ 8
    → fixed k c ≡ ok (v, c')
    → Forward c c' × IsU64 v
fixed_widen k c img lo hi read =
    let (f, small) = fixed-Forward k c img lo hi read in
    let room : 2 ^ (k * 8) ≤ 2 ^ 64 =
      pow-le-pow_right {n = 2} (omega arith) {j = 64} (omega arith) in
    (f, omega arith)

address_of_size-Forward :
    (n : ℕ) (c : Cursor) {v : ℕ} {c' : Cursor}
    → InImage c.sec
    → address_of_size n c ≡ ok (v, c')
    → Forward c c' × IsU64 v
address_of_size-Forward n c {v} {c'} img e = elim (Bool-cases (n == 1)) [
  | inl is ↦ fixed_widen 1 c img (omega arith) (omega arith) (rw is at e)
  | inr not_1 ↦ elim (Bool-cases (n == 2)) [
    | inl is ↦ fixed_widen 2 c img (omega arith) (omega arith) (rw (not_1, is) at e)
    | inr not_2 ↦ elim (Bool-cases (n == 4)) [
      | inl is ↦ fixed_widen 4 c img (omega arith) (omega arith) (rw (not_1, not_2, is) at e)
      | inr not_4 ↦ elim (Bool-cases (n == 8)) [
        | inl is ↦
            fixed_widen 8 c img (omega arith) (omega arith) (rw (not_1, not_2, not_4, is) at e)
        | inr not_8 ↦ absurd (cc (rw (not_1, not_2, not_4, not_8) at e))
      ]
    ]
  ]
]

pub address-Forward :
    (c : Cursor) {v : ℕ} {c' : Cursor}
    → InImage c.sec
    → address c ≡ ok (v, c')
    → Forward c c' × IsU64 v
unfolding address
address-Forward c img e = address_of_size-Forward c.sec.addr_size c img e

scan_string-Moves :
    (n : ℕ) (mem : List ℕ) (p : ℕ) → Gives (λ q. (p ≤ q) × (q ≤ p + n)) (scan_string n mem p)
unfolding scan_string
scan_string-Moves zero mem p = ok-Gives _ p (omega arith, omega arith)
scan_string-Moves (suc n) mem p = bind-Gives _ (read_byte mem p) _ λ b e.
    if-Gives _ (b == 0) _ _ (ok-Gives _ p (omega arith, omega arith))
      λ q eq. let (lo, hi) = scan_string-Moves n mem (p + 1) q eq in (omega arith, omega arith)

not_at_end :
    (q e : ℕ) (why : Error) (u : Unit {0})
    → guard (if q == e then false else true) why ≡ ok u
    → q ≢ e
not_at_end q e why u h = ground arith

pub cstr-Forward :
    (c : Cursor) → c.pos ≤ c.sec.end → c.sec.end < u64_mod → Gives (λ r. Forward c r.2) (cstr c)
unfolding cstr
cstr-Forward c inside space =
    bind-Gives _ (scan_string (c.sec.end - c.pos) c.sec.mem c.pos) _ λ q scan.
      bind-Gives _ (guard (if q == c.sec.end then false else true) _) _ λ u other.
        let (lo, hi) = scan_string-Moves (c.sec.end - c.pos) c.sec.mem c.pos q scan in
        let before_end = not_at_end q c.sec.end _ u other in
        let next : (q + 1) % u64_mod ≡ q + 1 = omega arith in
        ok-Gives (λ (r : ℕ × ℕ × Cursor). Forward c r.2) _
          (record { same_section = refl; later = omega arith; inside = omega arith })

pub string-Forward :
    (c : Cursor) → c.pos ≤ c.sec.end → c.sec.end < u64_mod → Gives (λ r. Forward c r.1) (string c)
unfolding string
string-Forward c inside space =
    bind-Gives _ (cstr c) _
      λ t e. ok-Gives (λ (r : List ℕ × Cursor). Forward c r.1) _ (cstr-Forward c inside space t e)
