-- ===== src/Dwarf/Units/Extent.antt =====
-- dwarf/cursor.cc and dwarf/dwarf.cc: what `subsection` cuts out, and the extent of a unit whose
-- header is read.
use mathlib.Core.Path.{subst}
use libelfin.Prelude.{
  ℕ, ◌+◌, ◌%◌, ◌≤◌, ◌<◌, ◌≡◌, refl, sym, ap, ◌∙◌, inl, inr, arith, leb, ltb, ◌==◌, Bool-cases,
  ltb→lt,
}
use libelfin.Result.{
  ok, format_error, unknown_unit_version, unknown_type_unit_version, guard, ◌>>=◌, >>=-eq-ok,
  ok_inj, Ends, ok-Ends, bind-Ends, Gives, ok-Gives, bind-Gives, if-Gives,
}
use libelfin.Word.{u64_mod}
use libelfin.Dwarf.Section.{Section, Format, dwarf32, dwarf64, unknown}
use libelfin.Dwarf.Cursor.{
  Cursor, cursor_at, fixed, offset, subsection, subsection_of, skip_initial_length,
  initial_length_size, skip_unit_type, advance,
}
use libelfin.Dwarf.Cursor.Image.{InImage}
use libelfin.Dwarf.Cursor.Fixed.{fixed_cases, ensure_beyond}
use libelfin.Dwarf.Cursor.Ends.{fixed-Ends, offset-Ends, if-Ends, guard-Ends}
use libelfin.Dwarf.Units.{UnitImpl, read_layout, compilation_unit, type_unit}

-- A read that succeeds moves by its width, inside the section.
pub fixed_exact :
    (n : ℕ) (c : Cursor) (v : ℕ) (c' : Cursor)
    → InImage c.sec
    → 1 ≤ n
    → n ≤ 8
    → fixed n c ≡ ok (v, c')
    → (c' ≡ record c { pos = c.pos + n }) × (c.pos + n ≤ c.sec.end)
fixed_exact n c v c' img lo hi e = elim (fixed_cases n c img lo hi) [
  | inl (w, read, small, fits) ↦ (ap (λ (r : ℕ × Cursor). r.1) (ok_inj (sym e ∙ read)), fits)
  | inr (under, far) ↦ absurd (cc (rw under at e))
]

-- The subsection begins at the cursor, and the cursor goes on at its end.
pub record Cut (c : Cursor) (r : Section × Cursor) : Type 0 where
  pub same_section : r.1.sec ≡ c.sec
  pub begins : r.0.begin ≡ c.pos
  pub ends : r.1.pos ≡ r.0.end
  pub below : r.0.end < u64_mod
  pub prefix : (n : ℕ) × (initial_length_size r.0.fmt ≡ ok n) × (1 ≤ n) × (c.pos + n ≤ c.sec.end)

pub subsection-Cut : (c : Cursor) → InImage c.sec → Gives (Cut c) (subsection c)
unfolding subsection
subsection-Cut c img = bind-Gives (Cut c) (fixed 4 c) _ λ a e.
    let (at4, fits4) = fixed_exact 4 c a.0 a.1 img (omega arith) (omega arith) e in
    let same4 = ap (λ (d : Cursor). d.sec) at4 in
    let pos4 = ap (λ (d : Cursor). d.pos) at4 in
    if-Gives (Cut c) (ltb a.0 0xffff_fff0) _ _
      (ok-Gives (Cut c) (subsection_of c a.1 ((a.0 + 4) % u64_mod) dwarf32) (record {
        same_section = same4;
        begins = refl;
        ends = refl;
        below = omega arith;
        prefix = (4, refl, omega arith, fits4);
      }))
      (if-Gives (Cut c) (a.0 == 0xffff_ffff) _ _
        (bind-Gives (Cut c) (fixed 8 a.1) _ λ b e'.
          let img4 = subst InImage (sym same4) img in
          let (at8, fits8) = fixed_exact 8 a.1 b.0 b.1 img4 (omega arith) (omega arith) e' in
          ok-Gives (Cut c) (subsection_of c b.1 ((b.0 + 12) % u64_mod) dwarf64) (record {
            same_section = ap (λ (d : Cursor). d.sec) at8 ∙ same4;
            begins = refl;
            ends = refl;
            below = omega arith;
            prefix = (
              12,
              refl,
              omega arith,
              omega (arith, pos4, fits8, ap (λ (s : Section). s.end) same4),
            );
          }))
        (λ r e'. absurd (cc)))

pub subsection-Ends : (c : Cursor) → Ends (subsection c)
unfolding subsection
subsection-Ends c = bind-Ends (fixed 4 c) _ (fixed-Ends 4 c) λ a e.
    if-Ends (ltb a.0 0xffff_fff0) _ _ (ok-Ends _) (
      if-Ends (a.0 == 0xffff_ffff) _ _
        (bind-Ends (fixed 8 a.1) _ (fixed-Ends 8 a.1) λ b e'. ok-Ends _) (λ p. cc))

pub skip_initial_length-Ends : (c : Cursor) → Ends (skip_initial_length c)
unfolding skip_initial_length
skip_initial_length-Ends c = ends c.sec.fmt
  where
    ends : (f : Format) → Ends (do n ← initial_length_size f; ok (advance n c))
    ends dwarf32 = ok-Ends _
    ends dwarf64 = ok-Ends _
    ends unknown = λ p. cc

read_layout-Ends : (version : ℕ) (c : Cursor) → Ends (read_layout version c)
unfolding read_layout
read_layout-Ends version c =
    if-Ends (leb 5 version) _ _
      (bind-Ends (fixed 1 (skip_unit_type c)) _ (fixed-Ends 1 (skip_unit_type c))
        λ a e. bind-Ends (offset a.1) _ (offset-Ends a.1) λ b e'. ok-Ends _)
      (bind-Ends (offset c) _ (offset-Ends c)
        λ a e. bind-Ends (fixed 1 a.1) _ (fixed-Ends 1 a.1) λ b e'. ok-Ends _)

pub compilation_unit-Ends : (info : Section) (off : ℕ) → Ends (compilation_unit info off)
unfolding compilation_unit
compilation_unit-Ends info off =
    bind-Ends (subsection (cursor_at info off)) _ (subsection-Ends (cursor_at info off)) λ a e.
      bind-Ends (skip_initial_length (cursor_at a.0 0)) _
        (skip_initial_length-Ends (cursor_at a.0 0))
        λ s e1. bind-Ends (fixed 2 s) _ (fixed-Ends 2 s) λ v e2.
          bind-Ends (guard (leb v.0 5) (format_error (unknown_unit_version v.0))) _
            (guard-Ends (leb v.0 5) (format_error (unknown_unit_version v.0)) (λ p. cc))
            λ u e3. bind-Ends (read_layout v.0 v.1) _ (read_layout-Ends v.0 v.1) λ l e4. ok-Ends _

pub type_unit-Ends : (types : Section) (off : ℕ) → Ends (type_unit types off)
unfolding type_unit
type_unit-Ends types off =
    bind-Ends (subsection (cursor_at types off)) _ (subsection-Ends (cursor_at types off)) λ a e.
      bind-Ends (skip_initial_length (cursor_at a.0 0)) _
        (skip_initial_length-Ends (cursor_at a.0 0))
        λ s e1. bind-Ends (fixed 2 s) _ (fixed-Ends 2 s) λ v e2.
          bind-Ends (guard (v.0 == 4) (format_error (unknown_type_unit_version v.0))) _
            (guard-Ends (v.0 == 4) (format_error (unknown_type_unit_version v.0)) (λ p. cc))
            λ u e3. bind-Ends (offset v.1) _ (offset-Ends v.1) λ b e4.
              bind-Ends (fixed 1 b.1) _ (fixed-Ends 1 b.1) λ d e5.
                bind-Ends (fixed 8 d.1) _ (fixed-Ends 8 d.1)
                  λ g e6. bind-Ends (offset g.1) _ (offset-Ends g.1) λ h e7. ok-Ends _

-- A read that succeeds starts before the end.
fixed_inside :
    (n : ℕ) (c : Cursor) (v : ℕ) (c' : Cursor)
    → c.sec.end < u64_mod
    → fixed n c ≡ ok (v, c')
    → c.pos < c.sec.end
unfolding fixed
fixed_inside n c v c' space e = elim (Bool-cases (ltb c.pos c.sec.end)) [
  | inl inside ↦ ltb→lt _ _ inside
  | inr out ↦ absurd (cc (rw (ensure_beyond n c space (inl (ground (arith, out)))) at e))
]

-- Any header behind a length: the unit that is read is not empty.
header_ahead :
    (c : Cursor) (r : Section × Cursor) (sub : Cursor) (v : ℕ) (c' : Cursor)
    → c.sec.end < u64_mod
    → Cut c r
    → skip_initial_length (cursor_at r.0 0) ≡ ok sub
    → fixed 2 sub ≡ ok (v, c')
    → c.pos < r.1.pos
unfolding skip_initial_length
header_ahead c r sub v c' space cut skip read =
    let (n, size, some_byte, fits) = cut.prefix in
    let same : advance n (cursor_at r.0 0) ≡ sub = ok_inj (rw size at skip) in
    let inside =
      fixed_inside 2 (advance n (cursor_at r.0 0)) v c' cut.below (ap (fixed 2) same ∙ read) in
    omega (arith, cut.begins, cut.ends)

-- The section of a unit that is read reaches past where it begins.
pub compilation_unit_ahead :
    (info : Section) (off : ℕ) (u : UnitImpl) (r : Section × Cursor)
    → InImage info
    → compilation_unit info off ≡ ok u
    → subsection (cursor_at info off) ≡ ok r
    → (u.offset ≡ off) × ((cursor_at info off).pos < r.1.pos)
unfolding compilation_unit
compilation_unit_ahead info off u r img e cut =
    let (a, e0, e1) = >>=-eq-ok (subsection (cursor_at info off)) _ e in
    let (sub, skip, e2) = >>=-eq-ok (skip_initial_length (cursor_at a.0 0)) _ e1 in
    let (v, read, e3) = >>=-eq-ok (fixed 2 sub) _ e2 in
    let (o, g, e4) = >>=-eq-ok (guard (leb v.0 5) (format_error (unknown_unit_version v.0))) _ e3 in
    let (l, layout, e5) = >>=-eq-ok (read_layout v.0 v.1) _ e4 in
    let same : a ≡ r = ok_inj (sym e0 ∙ cut) in
    let ahead =
      header_ahead (cursor_at info off) a sub v.0 v.1 img.addressable
        (subsection-Cut (cursor_at info off) img a e0) skip read in
    (
      ap (λ (w : UnitImpl). w.offset) (sym (ok_inj e5)),
      subst (λ (x : Section × Cursor). (cursor_at info off).pos < x.1.pos) same ahead,
    )

pub type_unit_ahead :
    (types : Section) (off : ℕ) (u : UnitImpl) (r : Section × Cursor)
    → InImage types
    → type_unit types off ≡ ok u
    → subsection (cursor_at types off) ≡ ok r
    → (cursor_at types off).pos < r.1.pos
unfolding type_unit
type_unit_ahead types off u r img e cut =
    let (a, e0, e1) = >>=-eq-ok (subsection (cursor_at types off)) _ e in
    let (sub, skip, e2) = >>=-eq-ok (skip_initial_length (cursor_at a.0 0)) _ e1 in
    let (v, read, e3) = >>=-eq-ok (fixed 2 sub) _ e2 in
    let same : a ≡ r = ok_inj (sym e0 ∙ cut) in
    let ahead =
      header_ahead (cursor_at types off) a sub v.0 v.1 img.addressable
        (subsection-Cut (cursor_at types off) img a e0) skip read in
    subst (λ (x : Section × Cursor). (cursor_at types off).pos < x.1.pos) same ahead
