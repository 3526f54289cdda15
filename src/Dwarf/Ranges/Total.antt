-- ===== src/Dwarf/Ranges/Total.antt =====
-- dwarf/rangelist.cc: `operator++` and `contains` return on every range list.
use mathlib.Core.Path.{subst}
use libelfin.Prelude.{
  ℕ, zero, suc, ◌+◌, ◌-◌, ◌*◌, ◌≤◌, ◌<◌, ◌≡◌, refl, sym, ap, ◌∙◌, ◌⊎◌, inl, inr, true, false, ◌&&◌,
  none, some, arith, ltb, ◌==◌,
}
use libelfin.Result.{
  ok, err, undefined, Ends, bind-Ends, ok-Ends, Gives, ok-Gives, bind-Gives, if-Gives,
}
use libelfin.Word.{add64}
use libelfin.Dwarf.Section.{Section}
use libelfin.Dwarf.Cursor.{Cursor, cursor_at, address}
use libelfin.Dwarf.Cursor.Image.{InImage}
use libelfin.Dwarf.Cursor.Ends.{address-Ends, if-Ends}
use libelfin.Dwarf.Cursor.Progress.{address-Forward, Forward}
use libelfin.Dwarf.Ranges.{
  Iterator, at_entry, entry_contains, largest_offset, scan_entries, advance_from, contains_from,
  contains,
}

largest_offset-Ends : (n : ℕ) → Ends (largest_offset n)
unfolding largest_offset
largest_offset-Ends n =
    if-Ends (ltb n 8) _ _ (if-Ends (ltb (8 * n) 32) _ _ (ok-Ends _) (λ e. cc)) (ok-Ends _)

-- Two addresses on.
two_addresses :
    (c : Cursor) {v w : ℕ} {c1 c2 : Cursor}
    → InImage c.sec
    → address c ≡ ok (v, c1)
    → address c1 ≡ ok (w, c2)
    → Forward c c2
two_addresses c {v} {w} {c1} {c2} img e1 e2 =
    let f = (address-Forward c img e1).0 in
    let img1 = subst InImage (sym f.same_section) img in
    let g = (address-Forward c1 img1 e2).0 in
    record {
      same_section = g.same_section ∙ f.same_section;
      later = omega (arith, f.later, g.later);
      inside = omega (arith, f.inside, g.inside, ap (λ (s : Section). s.end) f.same_section);
    }

scan_entries-Ends :
    (fuel : ℕ) (s : Section) (largest base : ℕ) (c : Cursor)
    → InImage c.sec
    → c.sec.end - c.pos < fuel
    → Ends (scan_entries fuel s largest base c)
unfolding scan_entries
scan_entries-Ends zero s largest base c img h = absurd (omega arith)
scan_entries-Ends (suc fuel) s largest base c img h =
    bind-Ends (address c) _ (address-Ends c) λ a1 e1.
      bind-Ends (address a1.1) _ (address-Ends a1.1) λ a2 e2.
        let f = two_addresses c {v = a1.0} {w = a2.0} {c1 = a1.1} {c2 = a2.1} img e1 e2 in
        let img2 = subst InImage (sym f.same_section) img in
        let further =
          scan_entries-Ends fuel s largest a2.0 a2.1 img2
            (omega (arith, f.later, f.inside, ap (λ (s : Section). s.end) f.same_section)) in
        if-Ends (a1.0 == 0 && a2.0 == 0) _ _ (ok-Ends _)
          (if-Ends (a1.0 == largest) _ _ further (ok-Ends _))

-- The end, or a place of the section behind `p`.
abbrev IsPlaced : Section → ℕ → Iterator → Type 0
IsPlaced s p it =
    (it.sec ≡ none) ⊎ ((it.sec ≡ some s) × (p < s.begin + it.pos) × (s.begin + it.pos ≤ s.end))

at_entry-IsPlaced :
    (s : Section) (base low high p : ℕ) (c : Cursor)
    → InImage s
    → c.sec ≡ s
    → s.begin ≤ p
    → p < c.pos
    → c.pos ≤ s.end
    → IsPlaced s p (at_entry s base low high c)
at_entry-IsPlaced s base low high p c img same lo later hi =
    let start : c.sec.begin ≡ s.begin = ap (λ (t : Section). t.begin) same in
    let space = img.addressable in inr (refl, omega arith, omega arith)

IsPlaced-later : (s : Section) (p q : ℕ) (it : Iterator) → p ≤ q → IsPlaced s q it → IsPlaced s p it
IsPlaced-later s p q it h (inl e) = inl e
IsPlaced-later s p q it h (inr (e, lo, hi)) = inr (e, omega arith, hi)

scan_entries-IsPlaced :
    (fuel : ℕ) (s : Section) (largest base : ℕ) (c : Cursor)
    → InImage s
    → c.sec ≡ s
    → s.begin ≤ c.pos
    → Gives (IsPlaced s c.pos) (scan_entries fuel s largest base c)
unfolding scan_entries
scan_entries-IsPlaced zero s largest base c img same lo = λ it e. absurd (cc)
scan_entries-IsPlaced (suc fuel) s largest base c img same lo = bind-Gives _ (address c) _ λ a1 e1.
    bind-Gives _ (address a1.1) _ λ a2 e2.
      let img' = subst InImage (sym same) img in
      let f = two_addresses c {v = a1.0} {w = a2.0} {c1 = a1.1} {c2 = a2.1} img' e1 e2 in
      let same2 : a2.1.sec ≡ s = f.same_section ∙ same in
      let inside : a2.1.pos ≤ s.end = omega (arith, f.inside, ap (λ (t : Section). t.end) same) in
      let lo2 : s.begin ≤ a2.1.pos = omega (arith, f.later) in
      let further = scan_entries-IsPlaced fuel s largest a2.0 a2.1 img same2 lo2 in
      if-Gives _ (a1.0 == 0 && a2.0 == 0) _ _ (ok-Gives (IsPlaced s c.pos) _ (inl refl)) (
        if-Gives _ (a1.0 == largest) _ _
          (λ it e. IsPlaced-later s c.pos a2.1.pos it (omega (arith, f.later)) (further it e))
          (ok-Gives (IsPlaced s c.pos) _
            (at_entry-IsPlaced s base a1.0 a2.0 c.pos a2.1 img same2 lo f.later inside)))

module _ (s : Section) (img : InImage s) where
  start_pos : (pos : ℕ) → s.begin + pos ≤ s.end → add64 s.begin pos ≡ s.begin + pos
  start_pos pos h = let space = img.addressable in omega arith

  advance_from-Ends :
      (fuel base pos : ℕ)
      → s.begin + pos ≤ s.end
      → s.end - s.begin < fuel
      → Ends (advance_from fuel s base pos)
  unfolding advance_from
  advance_from-Ends fuel base pos inside h =
      bind-Ends (largest_offset s.addr_size) _ (largest_offset-Ends s.addr_size) λ largest e.
        scan_entries-Ends fuel s largest base (cursor_at s pos) img
          (omega (arith, start_pos pos inside))

  advance_from-IsPlaced :
      (fuel base pos : ℕ)
      → s.begin + pos ≤ s.end
      → Gives (IsPlaced s (s.begin + pos)) (advance_from fuel s base pos)
  unfolding advance_from
  advance_from-IsPlaced fuel base pos inside =
      bind-Gives _ (largest_offset s.addr_size) _ λ largest e.
        subst (λ q. Gives (IsPlaced s q) (scan_entries fuel s largest base (cursor_at s pos)))
          (start_pos pos inside)
          (scan_entries-IsPlaced fuel s largest base (cursor_at s pos) img refl
            (omega (arith, start_pos pos inside)))

  contains_from-Ends :
      (rounds fuel p : ℕ) (it : Iterator) (addr : ℕ)
      → s.end - s.begin < fuel
      → s.end - p < rounds
      → IsPlaced s p it
      → Ends (contains_from rounds fuel it.sec it addr)
  unfolding contains_from
  contains_from-Ends zero fuel p it addr enough more placed = absurd (omega arith)
  contains_from-Ends (suc rounds) fuel p it addr enough more (inl over) = rw over (λ e. cc)
  contains_from-Ends (suc rounds) fuel p it addr enough more (inr (here, lo, hi)) =
      subst (λ o. Ends (contains_from (suc rounds) fuel o it addr)) (sym here)
        (if-Ends (entry_contains it.entry addr) _ _ (ok-Ends true) (
          bind-Ends (advance_from fuel s it.base_addr it.pos) _
            (advance_from-Ends fuel it.base_addr it.pos hi enough)
            λ it' e.
              contains_from-Ends rounds fuel (s.begin + it.pos) it' addr enough (omega arith)
                (advance_from-IsPlaced fuel it.base_addr it.pos hi it' e)))

-- `contains` returns on every range list whose section lies in the image, with more rounds for the
-- loop and for each `++` than the section has bytes.
pub contains-Ends :
    (s : Section) (base rounds fuel addr : ℕ)
    → InImage s
    → s.end - s.begin < rounds
    → s.end - s.begin < fuel
    → Ends (contains rounds fuel (record { sec = some s; base_addr = base }) addr)
unfolding contains
contains-Ends s base rounds fuel addr img more enough =
    let room : s.begin + 0 ≤ s.end = let o = img.ordered in omega arith in
    bind-Ends (advance_from fuel s base 0) _ (advance_from-Ends s img fuel base 0 room enough)
      λ it e.
        contains_from-Ends s img rounds fuel (s.begin + 0) it addr enough (omega arith)
          (advance_from-IsPlaced s img fuel base 0 room it e)

-- With addresses of 4 to 7 bytes, `1 << (8 * sec->addr_size)` shifts an int by its width or more:
-- `contains` is undefined on every range list of such a section.
pub contains_short_addresses :
    (s : Section) (base rounds fuel addr : ℕ)
    → 4 ≤ s.addr_size
    → s.addr_size < 8
    → contains rounds fuel (record { sec = some s; base_addr = base }) addr ≡ err undefined
unfolding contains advance_from largest_offset
contains_short_addresses s base rounds fuel addr lo hi =
    let short : ltb s.addr_size 8 ≡ true = ground arith in
    let wide : ltb (8 * s.addr_size) 32 ≡ false = ground arith in rw (short, wide)
