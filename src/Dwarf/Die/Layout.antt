-- ===== src/Dwarf/Die/Layout.antt =====
-- dwarf/die.cc: what `read` leaves in a DIE, and what `operator[]` finds there.
use mathlib.Core.Path.{subst}
use libelfin.Prelude.{
  ℕ, suc, ◌+◌, ◌-◌, ◌≡◌, refl, sym, ap, ◌∙◌, inl, inr, Option, none, some, List, [], ◌∷◌, arith,
  ◌==◌, if◌then◌else◌, Bool-cases, get_elem?,
}
use libelfin.Result.{Result, ok, err, out_of_range, no_attribute, ◌>>=◌, >>=-eq-ok, ok_inj}
use libelfin.Dwarf.Cursor.{Cursor, cursor_at, get_section_offset, uleb128}
use libelfin.Dwarf.Skip.{skip_form}
use libelfin.Dwarf.Abbrev.{AttributeSpec, AbbrevEntry}
use libelfin.Dwarf.Abbrev.Table.{get_abbrev}
use libelfin.Dwarf.Units.{UnitImpl}
use libelfin.Dwarf.File.{Dwarf}
use libelfin.Dwarf.Value.{Value, make_value}
use libelfin.Dwarf.Die.{Die, abbrevs_of, read_attrs, read, find_attr, lookup, specs_of}

-- Behind the code of an entry, its values are passed over one by one, up to that of the first
-- attribute with the name.
unfoldable pub place_of : ℕ → List AttributeSpec → Cursor → Result (AttributeSpec × Cursor)
place_of attr [] c = err (out_of_range (no_attribute attr))
place_of attr (a ∷ later) c =
    let further = (do c' ← skip_form a.form (suc (c.sec.end - c.pos)) c; place_of attr later c') in
    if a.name == attr then ok (a, c) else further

-- The value of the attribute, found in that way.
abbrev pub value_of_place : UnitImpl → Result (AttributeSpec × Cursor) → Result Value
value_of_place cu r = do (a, c) ← r; make_value cu a.name a.form a.type (get_section_offset c)

-- The offsets in the DIE from an index on.
abbrev From : Die → ℕ → List ℕ → Type 0
From die i os = (k : ℕ) → get_elem? die.attrs (i + k) ≡ get_elem? os k

From-start : (die : Die) (os : List ℕ) → die.attrs ≡ os → From die 0 os
From-start die os same k =
    let e : 0 + k ≡ k = omega arith in
    ap (get_elem? die.attrs) e ∙ ap (λ (l : List ℕ). get_elem? l k) same

From-suc : (die : Die) (i o : ℕ) (os : List ℕ) → From die i (o ∷ os) → From die (i + 1) os
From-suc die i o os h k =
    let e : i + 1 + k ≡ i + suc k = omega arith in ap (get_elem? die.attrs) e ∙ h (suc k)

find_attr-place_of :
    (die : Die) (attr i : ℕ) (specs : List AttributeSpec) (c : Cursor) (r : List ℕ × Cursor)
    → read_attrs specs c ≡ ok r
    → From die i r.0
    → find_attr die attr i specs ≡ value_of_place die.cu (place_of attr specs c)
unfolding find_attr place_of read_attrs
find_attr-place_of die attr i [] c r e from = refl
find_attr-place_of die attr i (a ∷ later) c r e from =
    let (c', skip, e1) = >>=-eq-ok (skip_form a.form (suc (c.sec.end - c.pos)) c) _ e in
    let (s, rest, e2) = >>=-eq-ok (read_attrs later c') _ e1 in
    let offsets : get_section_offset c ∷ s.0 ≡ r.0 =
      ap (λ (p : List ℕ × Cursor). p.0) (ok_inj e2) in
    let from' = subst (From die i) (sym offsets) from in
    elim (Bool-cases (a.name == attr)) [
      | inl is ↦
          let at : i ≡ i + 0 = omega arith in rw (is, ap (get_elem? die.attrs) at ∙ from' 0) refl
      | inr other ↦
          rw (other, skip)
            (find_attr-place_of die attr (i + 1) later c' s rest
              (From-suc die i (get_section_offset c) s.0 from'))
    ]

-- In a DIE that was read as an entry, `operator[]` gives for every attribute the value that stands
-- where the values of the entry before it have been passed over, with the form and the type of
-- its abbreviation, or the exception for a missing attribute: the offsets kept in the DIE are
-- never out of step with the abbreviation, whatever the DIE held before.
pub read-lookup :
    (limit : ℕ) (d : Dwarf) (off : ℕ) (y x : Die) (a : AbbrevEntry)
    → read limit d off y ≡ ok x
    → x.abbrev_ ≡ some a
    → (code : ℕ) × (c : Cursor) × (uleb128 (cursor_at y.cu.subsec off) ≡ ok (code, c))
      × ((attr : ℕ) → lookup x attr ≡ value_of_place y.cu (place_of attr a.attributes c))
unfolding read lookup
read-lookup limit d off y x a e isa =
    let (r, code, e1) = >>=-eq-ok (uleb128 (cursor_at y.cu.subsec off)) _ e in
    elim (Bool-cases (r.0 == 0)) [
      | inl last ↦
          let stop : none ≡ x.abbrev_ = ap (λ (w : Die). w.abbrev_) (ok_inj (rw last at e1)) in
          absurd (cc)
      | inr more ↦
          let (t, table, e2) = >>=-eq-ok (abbrevs_of limit d y.cu) _ (rw more at e1) in
          let (b, found, e3) = >>=-eq-ok (get_abbrev t r.0) _ e2 in
          let (s, laid, e4) = >>=-eq-ok (read_attrs b.attributes r.1) _ e3 in
          let made = ok_inj e4 in
          let has_b : some b ≡ some a = ap (λ (w : Die). w.abbrev_) made ∙ isa in
          let is : b ≡ a = cc in
          let offsets : s.0 ≡ x.attrs = ap (λ (w : Die). w.attrs) made in
          let mine : x.cu ≡ y.cu = ap (λ (w : Die). w.cu) (sym made) in
          (
            r.0,
            r.1,
            code,
            λ attr.
                ap (λ (o : Option AbbrevEntry). find_attr x attr 0 (specs_of o)) isa
                ∙ find_attr-place_of x attr 0 a.attributes r.1 s
                    (ap (λ (w : AbbrevEntry). read_attrs w.attributes r.1) (sym is) ∙ laid)
                    (From-start x s.0 (sym offsets))
                ∙ ap (λ (u : UnitImpl). value_of_place u (place_of attr a.attributes r.1)) mine,
          )
    ]
