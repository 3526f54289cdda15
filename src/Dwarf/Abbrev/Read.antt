-- ===== src/Dwarf/Abbrev/Read.antt =====
-- dwarf/abbrev.cc: `abbrev_entry::read` returns, and types each attribute.
use mathlib.Core.Path.{subst}
use libelfin.Prelude.{
  ℕ, zero, suc, ◌-◌, ◌<◌, ◌≡◌, sym, ap, Bool, ◌&&◌, List, ◌∷◌, arith, Bool-cases, inl, inr, true,
  ◌≢◌, ◌==◌, All,
}
use libelfin.Result.{
  ok, Ends, ok-Ends, bind-Ends, Gives, ok-Gives, bind-Gives, if-Gives, Returns, Gives-Returns,
}
use libelfin.Dwarf.Section.{Section}
use libelfin.Dwarf.Cursor.{Cursor, uleb128, fixed}
use libelfin.Dwarf.Cursor.Image.{InImage}
use libelfin.Dwarf.Cursor.Ends.{uleb128-Ends, fixed-Ends, if-Ends}
use libelfin.Dwarf.Cursor.Progress.{uleb128-Forward, fixed-Forward}
use libelfin.Dwarf.Line.Files.{Forward-trans}
use libelfin.Dwarf.Form.{Form, form_of}
use libelfin.Dwarf.Abbrev.{
  sec_offset_type, resolve_type, AttributeSpec, attribute_spec, AbbrevEntry, to_int,
  read_attributes, read_abbrev,
}

sec_offset_type-Ends : (name : ℕ) → Ends (sec_offset_type name)
unfolding sec_offset_type
sec_offset_type-Ends name = ground arith

resolve_type-Ends : (name : ℕ) (form : Form) → Ends (resolve_type name form)
unfolding resolve_type
resolve_type-Ends name Form.sec_offset = sec_offset_type-Ends name
resolve_type-Ends name Form.data4 = if-Ends _ _ _ (sec_offset_type-Ends name) (ok-Ends _)
resolve_type-Ends name Form.data8 = if-Ends _ _ _ (sec_offset_type-Ends name) (ok-Ends _)
resolve_type-Ends name (Form.other v) = λ e. cc
resolve_type-Ends name _ = ok-Ends _

read_attributes-Ends :
    (fuel : ℕ) (c : Cursor) → c.sec.end - c.pos < fuel → Ends (read_attributes fuel c)
unfolding read_attributes
read_attributes-Ends zero c h = absurd (omega arith)
read_attributes-Ends (suc fuel) c h = bind-Ends (uleb128 c) _ (uleb128-Ends c) λ a1 e1.
    bind-Ends (uleb128 a1.1) _ (uleb128-Ends a1.1) λ a2 e2.
      let f1 = (uleb128-Forward c {v = a1.0} {c' = a1.1} e1).0 in
      let f2 = (uleb128-Forward a1.1 {v = a2.0} {c' = a2.1} e2).0 in
      let less : a2.1.sec.end - a2.1.pos < fuel = omega (
        arith,
        f1.later,
        f2.later,
        f1.inside,
        f2.inside,
        ap (λ (s : Section). s.end) f1.same_section,
        ap (λ (s : Section). s.end) f2.same_section,
      ) in
      if-Ends (to_int a1.0 == 0 && to_int a2.0 == 0) _ _ (ok-Ends _) (
        bind-Ends (attribute_spec (to_int a1.0) (form_of a2.0)) _
          (bind-Ends (resolve_type (to_int a1.0) (form_of a2.0)) _
            (resolve_type-Ends (to_int a1.0) (form_of a2.0)) λ t e. ok-Ends _)
          λ s e3.
            bind-Ends (read_attributes fuel a2.1) _ (read_attributes-Ends fuel a2.1 less)
              λ r e4. ok-Ends _)

-- The type of a specification is the one of its attribute and its form.
abbrev pub IsTyped : AttributeSpec → Type 0
IsTyped s = resolve_type s.name s.form ≡ ok s.type

read_attributes-IsTyped :
    (fuel : ℕ) (c : Cursor) → Gives (λ r. All IsTyped r.0) (read_attributes fuel c)
unfolding read_attributes
read_attributes-IsTyped zero c = λ r e. absurd (cc)
read_attributes-IsTyped (suc fuel) c =
    let P = λ (r : List AttributeSpec × Cursor). All IsTyped r.0 in
    bind-Gives P (uleb128 c) _ λ a1 e1. bind-Gives P (uleb128 a1.1) _ λ a2 e2.
      if-Gives P (to_int a1.0 == 0 && to_int a2.0 == 0) _ _ (ok-Gives P _ tt) (
        bind-Gives P (attribute_spec (to_int a1.0) (form_of a2.0)) _ λ s e3.
          bind-Gives P (read_attributes fuel a2.1) _ λ r e4.
            ok-Gives P (s ∷ r.0, r.1)
              (typed (to_int a1.0) (form_of a2.0) s e3, read_attributes-IsTyped fuel a2.1 r e4))
  where
    typed : (name : ℕ) (form : Form) → Gives IsTyped (attribute_spec name form)
    typed name form = bind-Gives IsTyped (resolve_type name form) _ λ t e. ok-Gives IsTyped _ e

read_abbrev-Ends :
    (fuel : ℕ) (e : AbbrevEntry) (c : Cursor)
    → InImage c.sec
    → c.sec.end - c.pos < fuel
    → Ends (read_abbrev fuel e c)
unfolding read_abbrev
read_abbrev-Ends fuel e c img h = bind-Ends (uleb128 c) _ (uleb128-Ends c) λ a1 e1.
    let f1 = (uleb128-Forward c {v = a1.0} {c' = a1.1} e1).0 in
    let img1 = subst InImage (sym f1.same_section) img in
    if-Ends (a1.0 == 0) _ _ (ok-Ends _) (
      bind-Ends (uleb128 a1.1) _ (uleb128-Ends a1.1) λ a2 e2.
        let f2 = (uleb128-Forward a1.1 {v = a2.0} {c' = a2.1} e2).0 in
        let img2 = subst InImage (sym f2.same_section) img1 in
        bind-Ends (fixed 1 a2.1) _ (fixed-Ends 1 a2.1) λ a3 e3.
          let f3 =
            (fixed-Forward 1 a2.1 {v = a3.0} {c' = a3.1} img2 (omega arith) (omega arith) e3).0 in
          let f = Forward-trans (Forward-trans f1 f2) f3 in
          let less : a3.1.sec.end - a3.1.pos < fuel =
            omega (arith, f.later, f.inside, ap (λ (s : Section). s.end) f.same_section) in
          bind-Ends (read_attributes fuel a3.1) _ (read_attributes-Ends fuel a3.1 less)
            λ r e4. ok-Ends _)

read_abbrev-IsTyped :
    (fuel : ℕ) (e : AbbrevEntry) (c : Cursor)
    → Gives (λ r. All IsTyped r.1.attributes) (read_abbrev fuel e c)
unfolding read_abbrev
read_abbrev-IsTyped fuel e c =
    let P = λ (r : Bool × AbbrevEntry × Cursor). All IsTyped r.1.attributes in
    bind-Gives P (uleb128 c) _ λ a1 e1. if-Gives P (a1.0 == 0) _ _ (ok-Gives P _ tt) (
      bind-Gives P (uleb128 a1.1) _ λ a2 e2. bind-Gives P (fixed 1 a2.1) _ λ a3 e3.
        bind-Gives P (read_attributes fuel a3.1) _
          λ r e4. ok-Gives P _ (read_attributes-IsTyped fuel a3.1 r e4))

-- An entry that is there has a code.
pub read_abbrev-code :
    (fuel : ℕ) (e : AbbrevEntry) (c : Cursor)
    → Gives (λ r. r.0 ≡ true → r.1.code ≢ 0) (read_abbrev fuel e c)
unfolding read_abbrev
read_abbrev-code fuel e c =
    let P = λ (r : Bool × AbbrevEntry × Cursor). r.0 ≡ true → r.1.code ≢ 0 in
    bind-Gives P (uleb128 c) _ λ a1 e1. elim (Bool-cases (a1.0 == 0)) [
      | inl none_left ↦ rw none_left (ok-Gives P _ λ h. absurd (cc))
      | inr coded ↦ rw coded (
          bind-Gives P (uleb128 a1.1) _ λ a2 e2. bind-Gives P (fixed 1 a2.1) _ λ a3 e3.
            bind-Gives P (read_attributes fuel a3.1) _
              λ r e4. ok-Gives P _ λ h. ground (arith, coded))
    ]

-- `abbrev_entry::read` returns on every input, with more rounds than bytes are left in the section:
-- it throws, or it gives an entry with the type that `resolve_type` assigns to each attribute.
pub read_abbrev-Returns :
    (fuel : ℕ) (e : AbbrevEntry) (c : Cursor)
    → InImage c.sec
    → c.sec.end - c.pos < fuel
    → Returns (λ r. All IsTyped r.1.attributes) (read_abbrev fuel e c)
read_abbrev-Returns fuel e c img h =
    Gives-Returns _ (read_abbrev fuel e c) (read_abbrev-Ends fuel e c img h)
      (read_abbrev-IsTyped fuel e c)
