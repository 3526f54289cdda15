-- ===== src/Dwarf/File/Opened.antt =====
-- dwarf/dwarf.cc: the constructor of `dwarf` and the first `get_type_unit` return on every image.
use mathlib.Core.Path.{subst}
use libelfin.Prelude.{
  ℕ, zero, suc, ◌+◌, ◌-◌, ◌≤◌, ◌<◌, ◌≡◌, refl, sym, ap, ◌∙◌, inl, inr, Option, none, some, List, [],
  ◌∷◌, arith, ◌==◌, Bool-cases, length, All,
}
use libelfin.Result.{
  Reason, ok, missing_info, missing_abbrev, Ends, ok-Ends, bind-Ends, Gives, ok-Gives, bind-Gives,
  Returns, Gives-Returns,
}
use libelfin.Word.{u64_mod, IsByte}
use libelfin.Dwarf.Section.{Section, SectionType, ByteOrder, lsb}
use libelfin.Dwarf.Cursor.{Cursor, cursor_at, at_end, get_section_offset, fixed, subsection}
use libelfin.Dwarf.Cursor.Image.{InImage}
use libelfin.Dwarf.Cursor.Ends.{fixed-Ends, if-Ends}
use libelfin.Dwarf.Units.{UnitImpl, compilation_unit, type_unit}
use libelfin.Dwarf.Units.Extent.{
  subsection-Cut, subsection-Ends, compilation_unit-Ends, type_unit-Ends, compilation_unit_ahead,
  type_unit_ahead,
}
use libelfin.Dwarf.File.{
  Loaded, Loader, Dwarf, make_section, skip_length, read_version, sniff, read_units,
  read_type_units, put_unit, required, dwarf,
}

-- The cursor of a loop over the units of a section.
pub record InUnits (s : Section) (c : Cursor) : Type 0 where
  pub same_section : c.sec ≡ s
  pub started : s.begin ≤ c.pos
  pub below : c.pos < u64_mod

-- The offset of the cursor leads back to it.
again :
    (s : Section) (c : Cursor)
    → s.end < u64_mod
    → InUnits s c
    → cursor_at s (get_section_offset c) ≡ c
again s c space at =
    let start = ap (λ (t : Section). t.begin) at.same_section in
    let lo = at.started in
    let hi = at.below in
    let pos : (cursor_at s (get_section_offset c)).pos ≡ c.pos = omega arith in cc

-- A step of the loop moves it on.
next-InUnits :
    (s : Section) (c : Cursor) (r : Section × Cursor)
    → InImage s
    → InUnits s c
    → subsection c ≡ ok r
    → c.pos < r.1.pos
    → InUnits s r.1
next-InUnits s c r img at cut ahead =
    let k = subsection-Cut c (subst InImage (sym at.same_section) img) r cut in
    record {
      same_section = k.same_section ∙ at.same_section;
      started = omega (arith, at.started);
      below = omega (arith, k.ends, k.below);
    }

-- The offsets of the units, from the first that may follow.
abbrev pub Ascending : ℕ → List UnitImpl → Type 0
Ascending from [] = Unit {0}
Ascending from (u ∷ us) = (from ≤ u.offset) × Ascending (suc u.offset) us

unit_step :
    (s : Section) (c : Cursor) (u : UnitImpl) (r : Section × Cursor)
    → InImage s
    → InUnits s c
    → compilation_unit s (get_section_offset c) ≡ ok u
    → subsection c ≡ ok r
    → (u.offset ≡ get_section_offset c) × (c.pos < r.1.pos)
unit_step s c u r img at e cut =
    let back = again s c img.addressable at in
    let (off, ahead) =
      compilation_unit_ahead s (get_section_offset c) u r img e (ap subsection back ∙ cut) in
    (off, subst (λ (d : Cursor). d.pos < r.1.pos) back ahead)

read_units-Ends :
    (rounds : ℕ) (s : Section) (c : Cursor)
    → InImage s
    → InUnits s c
    → s.end - c.pos < rounds
    → Ends (read_units rounds s c)
unfolding read_units
read_units-Ends zero s c img at h = absurd (omega arith)
read_units-Ends (suc rounds) s c img at h = elim (Bool-cases (at_end c)) [
  | inl done ↦ rw done (ok-Ends _)
  | inr more ↦ rw more (
      bind-Ends (compilation_unit s (get_section_offset c)) _
        (compilation_unit-Ends s (get_section_offset c))
        λ u e. bind-Ends (subsection c) _ (subsection-Ends c) λ r cut.
          let (off, ahead) = unit_step s c u r img at e cut in
          let at' = next-InUnits s c r img at cut ahead in
          let short : s.end - r.1.pos < rounds = ground (arith, more, at.same_section) in
          bind-Ends (read_units rounds s r.1) _ (read_units-Ends rounds s r.1 img at' short)
            λ us e'. ok-Ends _)
]

read_units-Ascending :
    (rounds : ℕ) (s : Section) (c : Cursor)
    → InImage s
    → InUnits s c
    → Gives (Ascending (get_section_offset c)) (read_units rounds s c)
unfolding read_units
read_units-Ascending zero s c img at = λ us e. absurd (cc)
read_units-Ascending (suc rounds) s c img at = elim (Bool-cases (at_end c)) [
  | inl done ↦ rw done (ok-Gives (Ascending (get_section_offset c)) [] tt)
  | inr more ↦ rw more (
      bind-Gives P (compilation_unit s (get_section_offset c)) _ λ u e.
        bind-Gives P (subsection c) _ λ r cut.
          let (off, ahead) = unit_step s c u r img at e cut in
          let at' = next-InUnits s c r img at cut ahead in
          bind-Gives P (read_units rounds s r.1) _ λ us e'.
            let later = read_units-Ascending rounds s r.1 img at' us e' in
            ok-Gives P (u ∷ us)
              (omega (arith, off), Ascending-later _ _ us (nearer u r off ahead at') later))
]
  where
    P : List UnitImpl → Type 0
    P = Ascending (get_section_offset c)

    Ascending-later : (k j : ℕ) (us : List UnitImpl) → k ≤ j → Ascending j us → Ascending k us
    Ascending-later k j [] h a = tt
    Ascending-later k j (u ∷ us) h a = (omega (arith, a.0), a.1)

    nearer :
        (u : UnitImpl) (r : Section × Cursor)
        → u.offset ≡ get_section_offset c
        → c.pos < r.1.pos
        → InUnits s r.1
        → suc u.offset ≤ get_section_offset r.1
    nearer u r off ahead at' =
        let start = ap (λ (t : Section). t.begin) at.same_section in
        let start' = ap (λ (t : Section). t.begin) at'.same_section in
        let space = img.addressable in
        omega (arith, at.started, at.below, at'.started, at'.below, off, ahead)

pub read_type_units-Ends :
    (rounds : ℕ) (s : Section) (c : Cursor) (us : List UnitImpl)
    → InImage s
    → InUnits s c
    → s.end - c.pos < rounds
    → Ends (read_type_units rounds s c us)
unfolding read_type_units
read_type_units-Ends zero s c us img at h = absurd (omega arith)
read_type_units-Ends (suc rounds) s c us img at h = elim (Bool-cases (at_end c)) [
  | inl done ↦ rw done (ok-Ends _)
  | inr more ↦ rw more (
      bind-Ends (type_unit s (get_section_offset c)) _ (type_unit-Ends s (get_section_offset c))
        λ u e. bind-Ends (subsection c) _ (subsection-Ends c) λ r cut.
          let back = again s c img.addressable at in
          let ahead' =
            type_unit_ahead s (get_section_offset c) u r img e (ap subsection back ∙ cut) in
          let ahead = subst (λ (d : Cursor). d.pos < r.1.pos) back ahead' in
          let at' = next-InUnits s c r img at cut ahead in
          let short : s.end - r.1.pos < rounds = ground (arith, more, at.same_section) in
          read_type_units-Ends rounds s r.1 (put_unit u us) img at' short)
]

sniff-Ends : (s : Section) → Ends (sniff s)
unfolding sniff read_version
sniff-Ends s =
    bind-Ends (read_version s) _
      (bind-Ends (fixed 4 (cursor_at s 0)) _ (fixed-Ends 4 (cursor_at s 0)) λ a e.
        bind-Ends (skip_length a.0 a.1) _
          (if-Ends (a.0 == 0xffff_ffff) _ _
            (bind-Ends (fixed 8 a.1) _ (fixed-Ends 8 a.1) λ b e'. ok-Ends _) (ok-Ends _))
          λ c e1. bind-Ends (fixed 2 c) _ (fixed-Ends 2 c) λ b e2. ok-Ends _)
      λ v e. ok-Ends _

-- What the loader says of a section's place is true of the memory.
pub record IsLoaded (x : Loaded) : Type 0 where
  pub within : x.ptr + x.size ≤ length x.mem
  pub addressable : x.ptr + x.size < u64_mod
  pub bytes : All IsByte x.mem

pub make_section-InImage :
    (which : SectionType) (x : Loaded) (ord : ByteOrder)
    → IsLoaded x
    → InImage (make_section which x ord)
make_section-InImage which x ord at =
    let within = at.within in
    let space = at.addressable in
    record {
      ordered = omega arith;
      within = omega arith;
      addressable = omega arith;
      bytes = at.bytes;
    }

make_section-InUnits :
    (which : SectionType) (x : Loaded) (ord : ByteOrder)
    → IsLoaded x
    → InUnits (make_section which x ord) (cursor_at (make_section which x ord) 0)
make_section-InUnits which x ord at =
    let space = at.addressable in
    record { same_section = refl; started = omega arith; below = omega arith }

required-Ends : (why : Reason) (o : Option Loaded) → Ends (required why o)
required-Ends why none = λ p. cc
required-Ends why (some x) = ok-Ends _

required_from : (why : Reason) (o : Option Loaded) (x : Loaded) → required why o ≡ ok x → o ≡ some x
required_from why none x e = absurd (cc)
required_from why (some y) x e = cc

-- Opening a DWARF file, on a loader whose sections lie in their memory and with more rounds than
-- bytes in .debug_info, ends with an exception or with a file whose units have strictly ascending
-- offsets: no length of a unit, not even one that wraps around, makes the loop over the units stay.
pub dwarf-Returns :
    (rounds : ℕ) (l : Loader)
    → ((x : Loaded) → l SectionType.info ≡ some x → IsLoaded x × (x.size < rounds))
    → Returns (λ d. Ascending 0 d.compilation_units) (dwarf rounds l)
unfolding dwarf
dwarf-Returns rounds l loads =
    Gives-Returns P (dwarf rounds l)
      (bind-Ends (required missing_info (l SectionType.info)) _
        (required-Ends missing_info (l SectionType.info))
        λ x e.
          let (at, room) = loads x (required_from missing_info (l SectionType.info) x e) in
          bind-Ends (sniff (make_section SectionType.info x lsb)) _
            (sniff-Ends (make_section SectionType.info x lsb))
            λ ord e1.
              bind-Ends (required missing_abbrev (l SectionType.abbrev_)) _
                (required-Ends missing_abbrev (l SectionType.abbrev_))
                λ y e2.
                  let s = make_section SectionType.info x ord in
                  let space = at.addressable in
                  bind-Ends (read_units rounds s (cursor_at s 0)) _
                    (read_units-Ends rounds s (cursor_at s 0)
                      (make_section-InImage SectionType.info x ord at)
                      (make_section-InUnits SectionType.info x ord at) (omega arith))
                    λ us e3. ok-Ends _)
      (bind-Gives P (required missing_info (l SectionType.info)) _ λ x e.
        let (at, room) = loads x (required_from missing_info (l SectionType.info) x e) in
        bind-Gives P (sniff (make_section SectionType.info x lsb)) _ λ ord e1.
          bind-Gives P (required missing_abbrev (l SectionType.abbrev_)) _ λ y e2.
            let s = make_section SectionType.info x ord in
            let space = at.addressable in
            let start : get_section_offset (cursor_at s 0) ≡ 0 = omega arith in
            bind-Gives P (read_units rounds s (cursor_at s 0)) _ λ us e3. ok-Gives P _ (
              subst (λ k. Ascending k us) start
                (read_units-Ascending rounds s (cursor_at s 0)
                  (make_section-InImage SectionType.info x ord at)
                  (make_section-InUnits SectionType.info x ord at) us e3)))
  where
    P : Dwarf → Type 0
    P = λ d. Ascending 0 d.compilation_units
