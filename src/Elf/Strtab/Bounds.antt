-- ===== src/Elf/Strtab/Bounds.antt =====
-- elf/elf.cc: `strtab::get` on every offset.
use mathlib.Core.Path.{subst}
use libelfin.Prelude.{
  ℕ, zero, suc, ◌+◌, ◌-◌, ◌≤◌, ◌<◌, ◌≡◌, ◌≢◌, refl, sym, ap, ◌∙◌, ◌⊎◌, inl, inr, false, List, arith,
  ◌==◌, ==_iff, Bool-cases, length, All, lt→not_leb, le→leb,
}
use native.Mathlib.Decide.{dec_lt, dec_le}
use libelfin.Result.{
  Result, ok, ok_inj, err, range_error, format_error, bad_string_offset, unterminated_string,
}
use libelfin.Word.{u64_mod, IsByte}
use libelfin.Dwarf.Section.{ptr_add}
use libelfin.Dwarf.Cursor.{scan_string, read_byte}
use libelfin.Dwarf.Cursor.Image.{read_byte_within}
use libelfin.Elf.Strtab.{Strtab, get_at, get}

-- No byte from one place up to another is 0.
abbrev pub NoZero : List ℕ → ℕ → ℕ → Type 0
NoZero mem p q = (k : ℕ) → p ≤ k → k < q → read_byte mem k ≢ ok 0

-- Where the scan of n bytes stops.
record Stops (n : ℕ) (mem : List ℕ) (p q : ℕ) : Type 0 where
  pub scanned : scan_string n mem p ≡ ok q
  pub onward : p ≤ q
  pub bounded : q ≤ p + n
  pub passed : NoZero mem p q
  pub here : q < p + n → read_byte mem q ≡ ok 0

scan_string-Stops :
    (n : ℕ) (mem : List ℕ) (p : ℕ) → All IsByte mem → p + n ≤ length mem → (q : ℕ) × Stops n mem p q
unfolding scan_string
scan_string-Stops zero mem p all room = (
  p,
  record {
    scanned = refl;
    onward = omega arith;
    bounded = omega arith;
    passed = λ k lo hi. absurd (omega arith);
    here = λ h. absurd (omega arith);
  },
)
scan_string-Stops (suc n) mem p all room =
    let (b, read, byte) = read_byte_within mem p all (omega arith) in
    elim (Bool-cases (b == 0)) [
      | inl is ↦
          let zero_byte : b ≡ 0 = (==_iff b 0).0 is in
          (
            p,
            record {
              scanned = rw (read, is) refl;
              onward = omega arith;
              bounded = omega arith;
              passed = λ k lo hi. absurd (omega arith);
              here = λ h. read ∙ ap ok zero_byte;
            },
          )
      | inr other ↦
          let (q, s) = scan_string-Stops n mem (p + 1) all (omega arith) in
          (
            q,
            record {
              scanned = rw (read, other) s.scanned;
              onward = omega (arith, s.onward);
              bounded = omega (arith, s.bounded);
              passed = λ k lo hi. elim (dec_lt p k) [
                | yes later ↦ s.passed k (omega arith) hi
                | no first ↦
                    let at : k ≡ p = omega arith in
                    λ zero_at.
                      nonzero b other (ok_inj (sym read ∙ ap (read_byte mem) (sym at) ∙ zero_at))
              ];
              here = λ h. s.here (omega arith);
            },
          )
    ]
  where
    nonzero : (b : ℕ) → (b == 0) ≡ false → b ≢ 0
    nonzero b h e = ground arith

-- The table lies in the memory.
pub record IsTable (t : Strtab) : Type 0 where
  pub ordered : t.start ≤ t.end
  pub within : t.end ≤ length t.mem
  pub addressable : t.end < u64_mod
  pub bytes : All IsByte t.mem

-- What a request for the text at a pointer comes to.
abbrev pub Found : ℕ → Strtab → Result (ℕ × ℕ) → Type 0
Found text t r =
    ((n : ℕ) × (r ≡ ok (text, n))
      × (text + n < t.end)
      × (read_byte t.mem (text + n) ≡ ok 0)
      × NoZero t.mem text (text + n))
    ⊎ ((r ≡ err (range_error bad_string_offset)) × (t.end ≤ text))
    ⊎ ((r ≡ err (format_error unterminated_string)) × (text < t.end) × NoZero t.mem text t.end)

get_at-Found : (text : ℕ) (t : Strtab) → IsTable t → Found text t (get_at text t)
unfolding get_at
get_at-Found text t table =
    let within = table.within in
    elim (dec_le t.end text) [
      | yes past ↦ inr (inl (rw (le→leb t.end text past) refl, past))
      | no inside ↦
          let (q, s) = scan_string-Stops (t.end - text) t.mem text table.bytes (omega arith) in
          let onward = s.onward in
          let bounded = s.bounded in
          let before = lt→not_leb t.end text (omega arith) in
          elim (Bool-cases (q == t.end)) [
            | inl is ↦
                let at_end : q ≡ t.end = (==_iff q t.end).0 is in
                inr (
                  inr (
                    rw (before, s.scanned, is) refl,
                    omega arith,
                    λ k lo hi. s.passed k lo (omega arith),
                  ))
            | inr short ↦
                let apart : q ≢ t.end = λ e. absurd (cc (sym short ∙ (==_iff q t.end).1 e)) in
                let back : text + (q - text) ≡ q = omega arith in
                inl (
                  q - text,
                  rw (before, s.scanned, short) refl,
                  omega arith,
                  ap (read_byte t.mem) back ∙ s.here (omega arith),
                  λ k lo hi. s.passed k lo (omega arith),
                )
          ]
    ]

-- `strtab::get` on a table in memory and an offset that does not carry the pointer past 2 ^ 64: a
-- text that starts at the offset, ends before the table does and has no 0 but the one behind it;
-- or the exception for an offset past the end, exactly if it is; or the one for an unterminated
-- text, where no byte from the offset to the end of the table is 0.
pub get-Found :
    (offset : ℕ) (t : Strtab)
    → IsTable t
    → t.start + offset < u64_mod
    → Found (t.start + offset) t (get offset t)
unfolding get
get-Found offset t table apart =
    let place : t.start + offset ≡ ptr_add t.start offset = omega arith in
    subst (λ text. Found (t.start + offset) t (get_at text t)) place
      (get_at-Found (t.start + offset) t table)
