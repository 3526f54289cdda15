-- ===== src/Dwarf/Ranges/Synthetic.antt =====
-- dwarf/rangelist.cc: a range list made of pairs, `rangelist(ranges)`, under `contains`.
use mathlib.Core.Path.{subst}
use mathlib.Core.List.{append_assoc}
use libelfin.Prelude.{
  ℕ, zero, suc, ◌+◌, ◌-◌, ◌*◌, ◌%◌, ◌≤◌, ◌<◌, ◌≡◌, refl, ◌∙◌, inl, inr, Bool, false, ◌&&◌, ◌||◌,
  some, List, [], ◌∷◌, ◌++◌, arith, ltb, leb, ◌==◌, length, length-append, get_elem?, All,
  Bool-cases,
}
use libelfin.Result.{ok, ◌>>=◌}
use libelfin.Word.{u64_mod, IsU64, IsByte, add64}
use libelfin.Dwarf.Section.{ByteOrder, lsb, msb}
use libelfin.Dwarf.Cursor.{Cursor, address}
use libelfin.Dwarf.Cursor.Image.{Holds}
use libelfin.Dwarf.Cursor.Fixed.{order_value, fixed-order_value}
use libelfin.Dwarf.Ranges.{
  Entry, Iterator, at_last, entry_contains, largest_offset, scan_entries, advance_from,
  contains_from, contains, word_bytes, synthetic, pair_section, of_ranges,
}

word_bytes-length : (o : ByteOrder) (v : ℕ) → length (word_bytes o v) ≡ 8
word_bytes-length lsb v = refl
word_bytes-length msb v = refl

word_bytes-IsByte : (o : ByteOrder) (v : ℕ) → All IsByte (word_bytes o v)
word_bytes-IsByte lsb v = omega arith
word_bytes-IsByte msb v = omega arith

order_value-word_bytes : (o : ByteOrder) (v : ℕ) → IsU64 v → order_value o (word_bytes o v) ≡ v
order_value-word_bytes lsb v h = omega arith
order_value-word_bytes msb v h = omega arith

Holds-append :
    (mem xs ys : List ℕ) (p : ℕ)
    → Holds mem p (xs ++ ys)
    → Holds mem p xs × Holds mem (p + length xs) ys
Holds-append mem [] ys p h =
    let e : p ≡ p + 0 = omega arith in (tt, subst (λ q. Holds mem q ys) e h)
Holds-append mem (x ∷ xs) ys p h =
    let (left, right) = Holds-append mem xs ys (p + 1) h.1 in
    let e : p + 1 + length xs ≡ p + suc (length xs) = omega arith in
    ((h.0, left), subst (λ q. Holds mem q ys) e right)

get_elem?-behind :
    (before : List ℕ) (b : ℕ) (bs : List ℕ)
    → get_elem? (before ++ (b ∷ bs)) (length before) ≡ some b
get_elem?-behind [] b bs = refl
get_elem?-behind (x ∷ before) b bs = get_elem?-behind before b bs

Holds-behind : (bs before : List ℕ) → Holds (before ++ bs) (length before) bs
Holds-behind [] before = tt
Holds-behind (b ∷ bs) before =
    let e : (before ++ (b ∷ [])) ++ bs ≡ before ++ (b ∷ bs) = append_assoc before (b ∷ []) bs in
    let len : length (before ++ (b ∷ [])) ≡ length before + 1 = length-append before (b ∷ []) in
    let rest = Holds-behind bs (before ++ (b ∷ [])) in
    (
      get_elem?-behind before b bs,
      subst (λ q. Holds (before ++ (b ∷ bs)) q bs) len
          (subst (λ m. Holds m (length (before ++ (b ∷ []))) bs) e rest),
    )

-- The bytes of a word, read back by `address`.
read_word :
    (o : ByteOrder) (mem : List ℕ) (p v : ℕ)
    → IsU64 v
    → Holds mem p (word_bytes o v)
    → length mem < u64_mod
    → p + 8 ≤ length mem
    → address (record { sec = pair_section o mem; pos = p })
      ≡ ok (v, record { sec = pair_section o mem; pos = p + 8 })
unfolding address
read_word o mem p v small at_p space fits =
    let len = word_bytes-length o v in
    let c : Cursor = record { sec = pair_section o mem; pos = p } in
    let fits' : p + length (word_bytes o v) ≤ length mem = omega arith in
    let read =
      fixed-order_value c (word_bytes o v) (word_bytes-IsByte o v) at_p space fits' (omega arith)
        (omega arith) in
    rw (order_value-word_bytes o v small, len) at read

-- A pair that `operator++` takes neither for the end nor for a new base.
abbrev pub IsPlain : Entry → Type 0
IsPlain e = IsU64 e.low × IsU64 e.high × (0 < e.low + e.high) × (e.low < u64_mod - 1)

both_zero : (e : Entry) → IsPlain e → (e.low == 0 && e.high == 0) ≡ false
both_zero e h = ground arith

not_base : (e : Entry) → IsPlain e → (e.low == u64_mod - 1) ≡ false
not_base e h = ground arith

module _ (o : ByteOrder) (mem : List ℕ) (space : length mem < u64_mod) where
  abbrev at_pos : ℕ → Cursor
  at_pos p = record { sec = pair_section o mem; pos = p }

  -- The iterator that stands on `e` and goes on from `p`.
  abbrev on_pair : ℕ → Entry → Iterator
  on_pair p e = record { sec = some (pair_section o mem); base_addr = 0; pos = p; entry = e }

  begin_pos : (p : ℕ) → p ≤ length mem → add64 0 p ≡ p
  begin_pos p h = omega arith

  scan_pair :
      (fuel p : ℕ) (e : Entry) (rest : List ℕ)
      → IsPlain e
      → p + 16 ≤ length mem
      → Holds mem p (word_bytes o e.low ++ (word_bytes o e.high ++ rest))
      → scan_entries (suc fuel) (pair_section o mem) (u64_mod - 1) 0 (at_pos p)
        ≡ ok (on_pair (p + 16) e)
  unfolding scan_entries
  scan_pair fuel p e rest plain fits at_p =
      let (first, tail) =
        Holds-append mem (word_bytes o e.low) (word_bytes o e.high ++ rest) p at_p in
      let p8 : p + length (word_bytes o e.low) ≡ p + 8 = omega (arith, word_bytes-length o e.low) in
      let tail' = subst (λ q. Holds mem q (word_bytes o e.high ++ rest)) p8 tail in
      let (second, _) = Holds-append mem (word_bytes o e.high) rest (p + 8) tail' in
      let low : add64 e.low 0 ≡ e.low = omega arith in
      let high : add64 e.high 0 ≡ e.high = omega arith in
      let behind : (p + 8 + 8 + u64_mod - 0) % u64_mod ≡ p + 16 = omega arith in
      rw (
        read_word o mem p e.low plain.0 first space (omega arith),
        read_word o mem (p + 8) e.high plain.1 second space (omega arith),
        both_zero e plain,
        not_base e plain,
        low,
        high,
        behind,
      )

  scan_last :
      (fuel p : ℕ)
      → p + 16 ≤ length mem
      → Holds mem p (word_bytes o 0 ++ word_bytes o 0)
      → scan_entries (suc fuel) (pair_section o mem) (u64_mod - 1) 0 (at_pos p) ≡ ok (at_last 0)
  unfolding scan_entries
  scan_last fuel p fits at_p =
      let (first, tail) = Holds-append mem (word_bytes o 0) (word_bytes o 0) p at_p in
      let p8 : p + length (word_bytes o 0) ≡ p + 8 = omega (arith, word_bytes-length o 0) in
      let second = subst (λ q. Holds mem q (word_bytes o 0)) p8 tail in
      rw (
        read_word o mem p 0 (omega arith) first space (omega arith),
        read_word o mem (p + 8) 0 (omega arith) second space (omega arith),
      )

  synthetic-length : (es : List Entry) → length (synthetic o es) ≡ 16 * length es + 16
  unfolding synthetic
  synthetic-length [] =
      length-append (word_bytes o 0) (word_bytes o 0) ∙ omega (arith, word_bytes-length o 0)
  synthetic-length (e ∷ es) = omega (
    arith,
    length-append (word_bytes o e.low) (word_bytes o e.high ++ synthetic o es),
    length-append (word_bytes o e.high) (synthetic o es),
    word_bytes-length o e.low,
    word_bytes-length o e.high,
    synthetic-length es,
  )

-- Some pair of the list has `low ≤ addr < high`.
abbrev pub covered : List Entry → ℕ → Bool
covered [] addr = false
covered (e ∷ es) addr = (leb e.low addr && ltb addr e.high) || covered es addr

module _ (o : ByteOrder) (mem : List ℕ) (space : length mem < u64_mod) (fuel addr : ℕ) where
  -- The loop of `contains` from the place of the pairs `es` on.
  contains_after :
      (es : List Entry) (rounds p : ℕ)
      → length es < rounds
      → All IsPlain es
      → p + length (synthetic o es) ≤ length mem
      → Holds mem p (synthetic o es)
      → (advance_from (suc fuel) (pair_section o mem) 0 p >>= λ it.
          contains_from rounds (suc fuel) it.sec it addr)
        ≡ ok (covered es addr)
  unfolding contains_from advance_from largest_offset synthetic entry_contains
  contains_after es zero p more plain fits at_p = absurd (omega arith)
  contains_after [] (suc rounds) p more plain fits at_p = rw (
    begin_pos o mem space p (omega arith),
    scan_last o mem space fuel p (omega (arith, synthetic-length o mem space [])) at_p,
  )
  contains_after (e ∷ es) (suc rounds) p more plain fits at_p =
      let long = synthetic-length o mem space (e ∷ es) in
      let (_, tail) =
        Holds-append mem (word_bytes o e.low) (word_bytes o e.high ++ synthetic o es) p at_p in
      let (_, tail') =
        Holds-append mem (word_bytes o e.high) (synthetic o es) (p + length (word_bytes o e.low))
          tail in
      let p16 : p + length (word_bytes o e.low) + length (word_bytes o e.high) ≡ p + 16 =
        omega (arith, word_bytes-length o e.low, word_bytes-length o e.high) in
      let further =
        contains_after es rounds (p + 16) (omega arith) plain.1
          (omega (arith, synthetic-length o mem space es))
          (subst (λ q. Holds mem q (synthetic o es)) p16 tail') in
      rw
        (
          begin_pos o mem space p (omega arith),
          scan_pair o mem space fuel p e (synthetic o es) plain.0 (omega arith) at_p,
        )
        (elim (Bool-cases (leb e.low addr && ltb addr e.high)) [
          | inl hit ↦ rw hit
          | inr miss ↦ rw miss further
        ])

-- `contains` on a list made of pairs of 64-bit addresses answers whether some pair covers the
-- address, in either byte order, if no pair reads as the end of a list or as a new base, the words
-- fit the address space, and there is one round for each pair and one for the end.
pub contains-covered :
    (o : ByteOrder) (es : List Entry) (rounds fuel addr : ℕ)
    → All IsPlain es
    → length (synthetic o es) < u64_mod
    → length es < rounds
    → contains rounds (suc fuel) (of_ranges o es) addr ≡ ok (covered es addr)
unfolding contains of_ranges
contains-covered o es rounds fuel addr plain space more =
    contains_after o (synthetic o es) space fuel addr es rounds 0 more plain (omega arith)
      (Holds-behind (synthetic o es) [])
