-- ===== src/Dwarf/File/Cache.antt =====
-- dwarf/dwarf.cc: what `get_section` and `get_type_unit` keep does not change later answers.
use mathlib.Core.Path.{subst}
use libelfin.Prelude.{
  ℕ, ◌≡◌, refl, sym, ap, ◌∙◌, inl, inr, Bool, true, false, Option, none, some, List, [], ◌∷◌, arith,
  ◌==◌, ==_iff, if◌then◌else◌, Bool-cases, Option-cases,
}
use libelfin.Result.{Result, ok, ◌>>=◌, >>=-eq-ok, ok_inj, Gives, ok-Gives, bind-Gives}
use libelfin.Dwarf.Section.{Section, SectionType}
use libelfin.Dwarf.Cursor.{cursor_at}
use libelfin.Dwarf.Units.{UnitImpl}
use libelfin.Dwarf.File.{
  Loaded, Dwarf, make_section, section_code, is_type, find_section, add_section, found_or_load,
  get_section, find_unit, known_unit, read_type_units, force_type_units, get_type_unit,
}

-- The answer of `get_section` alone.
abbrev pub section_of : SectionType → Dwarf → Result Section
section_of which d = do (s, d') ← get_section which d; ok s

abbrev type_of_code : ℕ → SectionType
type_of_code k =
    if k == 0
    then SectionType.abbrev_
    else if k == 1
    then SectionType.aranges
    else if k == 2
    then SectionType.frame
    else if k == 3
    then SectionType.info
    else if k == 4
    then SectionType.line
    else if k == 5
    then SectionType.loc
    else if k == 6
    then SectionType.macinfo
    else if k == 7
    then SectionType.pubnames
    else if k == 8
    then SectionType.pubtypes
    else if k == 9
    then SectionType.ranges
    else if k == 10
    then SectionType.str
    else SectionType.types

type_of_code-section_code : (t : SectionType) → type_of_code (section_code t) ≡ t
type_of_code-section_code SectionType.abbrev_ = refl
type_of_code-section_code SectionType.aranges = refl
type_of_code-section_code SectionType.frame = refl
type_of_code-section_code SectionType.info = refl
type_of_code-section_code SectionType.line = refl
type_of_code-section_code SectionType.loc = refl
type_of_code-section_code SectionType.macinfo = refl
type_of_code-section_code SectionType.pubnames = refl
type_of_code-section_code SectionType.pubtypes = refl
type_of_code-section_code SectionType.ranges = refl
type_of_code-section_code SectionType.str = refl
type_of_code-section_code SectionType.types = refl

is_type_same : (a b : SectionType) → is_type a b ≡ true → a ≡ b
is_type_same a b e =
    sym (type_of_code-section_code a)
    ∙ ap type_of_code ((==_iff (section_code a) (section_code b)).0 e)
    ∙ type_of_code-section_code b

-- The section alone.
abbrev answer : Result (Section × Dwarf) → Result Section
answer r = do (s, d') ← r; ok s

abbrev with_section : SectionType → Section → Dwarf → Dwarf
with_section which s d = record d { sections = (which, s) ∷ d.sections }

-- What is cached beside does not matter to a load.
found_or_load_with :
    (which later : SectionType) (s : Section) (o : Option Section) (d : Dwarf)
    → answer (found_or_load later o (with_section which s d)) ≡ answer (found_or_load later o d)
found_or_load_with which later s (some t) d = refl
found_or_load_with which later s none d = loads (d.l later)
  where
    loads :
        (x : Option Loaded)
        → answer (add_section later x (with_section which s d)) ≡ answer (add_section later x d)
    loads none = refl
    loads (some x) = refl

cached_other :
    (which later : SectionType) (s : Section) (d : Dwarf)
    → is_type which later ≡ false
    → section_of later (with_section which s d) ≡ section_of later d
unfolding get_section find_section
cached_other which later s d other = elim (Bool-cases (is_type later SectionType.info)) [
  | inl is ↦ rw is refl
  | inr not_info ↦ elim (Bool-cases (is_type later SectionType.abbrev_)) [
    | inl is ↦ rw (not_info, is) refl
    | inr not_abbrev ↦
        rw (not_info, not_abbrev, other)
          (found_or_load_with which later s (find_section later d.sections) d)
  ]
]

cached_same :
    (which : SectionType) (x : Loaded) (d : Dwarf)
    → is_type which SectionType.info ≡ false
    → is_type which SectionType.abbrev_ ≡ false
    → find_section which d.sections ≡ none
    → d.l which ≡ some x
    → section_of which (with_section which (make_section SectionType.str x d.sec_info.ord) d)
      ≡ section_of which d
unfolding get_section find_section
cached_same which x d not_info not_abbrev absent loads =
    let self : is_type which which ≡ true = ground arith in
    rw (not_info, not_abbrev, absent, loads, self) refl

-- A section that `get_section` loads and keeps changes no later answer: every request, for the
-- same type or another, is answered as before, up to the exception for a missing section.
pub get_section-transparent :
    (which later : SectionType) (d : Dwarf) (s : Section) (d' : Dwarf)
    → get_section which d ≡ ok (s, d')
    → section_of later d' ≡ section_of later d
unfolding get_section
get_section-transparent which later d s d' e = elim (Bool-cases (is_type which SectionType.info)) [
  | inl is ↦ ap (section_of later) (same (d.sec_info) (rw is at e))
  | inr not_info ↦ elim (Bool-cases (is_type which SectionType.abbrev_)) [
    | inl is ↦ ap (section_of later) (same d.sec_abbrev (rw (not_info, is) at e))
    | inr not_abbrev ↦ elim (Option-cases (find_section which d.sections)) [
      | inl (t, found) ↦ ap (section_of later) (same t (rw (not_info, not_abbrev, found) at e))
      | inr absent ↦ elim (Option-cases (d.l which)) [
        | inr missing ↦ absurd (cc (rw (not_info, not_abbrev, absent, missing) at e))
        | inl (x, loads) ↦
            let t = make_section SectionType.str x d.sec_info.ord in
            let e' : ◌≡◌ {A = Result (Section × Dwarf)} (ok (t, with_section which t d))
                (ok (s, d')) =
              rw (not_info, not_abbrev, absent, loads) at e in
            let kept : with_section which t d ≡ d' =
              ap (λ (r : Section × Dwarf). r.1) (ok_inj e') in
            ap (section_of later) (sym kept) ∙ elim (Bool-cases (is_type which later)) [
              | inr other ↦ cached_other which later t d other
              | inl again ↦
                  subst (λ l. section_of l (with_section which t d) ≡ section_of l d)
                    (is_type_same which later again)
                    (cached_same which x d not_info not_abbrev absent loads)
            ]
      ]
    ]
  ]
]
  where
    same : (t : Section) → ◌≡◌ {A = Result (Section × Dwarf)} (ok (t, d)) (ok (s, d')) → d' ≡ d
    same t e = ap (λ (r : Section × Dwarf). r.1) (sym (ok_inj e))

find_unit_signature :
    (sig : ℕ) (us : List UnitImpl) (u : UnitImpl)
    → find_unit sig us ≡ some u
    → u.type_signature ≡ sig
unfolding find_unit
find_unit_signature sig [] u e = absurd (cc)
find_unit_signature sig (x ∷ us) u e = elim (Bool-cases (x.type_signature == sig)) [
  | inl is ↦
      let same : x ≡ u = cc (rw is at e) in
      ap (λ (w : UnitImpl). w.type_signature) (sym same) ∙ (==_iff x.type_signature sig).0 is
  | inr other ↦ find_unit_signature sig us u (rw other at e)
]

known_unit_signature :
    (sig : ℕ) (us : List UnitImpl) (u : UnitImpl)
    → known_unit sig (find_unit sig us) ≡ ok u
    → u.type_signature ≡ sig
known_unit_signature sig us u e = elim (Option-cases (find_unit sig us)) [
  | inl (x, found) ↦ find_unit_signature sig us u (found ∙ ap some (ok_inj (rw found at e)))
  | inr absent ↦ absurd (cc (rw absent at e))
]

if_by :
    (P : Dwarf → Type 0) (b : Bool) (x y : Result Dwarf)
    → (b ≡ true → Gives P x)
    → (b ≡ false → Gives P y)
    → Gives P (if b then x else y)
if_by P true x y hx hy = hx refl
if_by P false x y hx hy = hy refl

force_type_units-have :
    (rounds : ℕ) (d : Dwarf) → Gives (λ d1. d1.have_type_units ≡ true) (force_type_units rounds d)
unfolding force_type_units
force_type_units-have rounds d =
    if_by P d.have_type_units (ok d) _ (λ have. ok-Gives P d have)
      (λ fresh. bind-Gives P (get_section SectionType.types d) _ λ r e.
        bind-Gives P (read_type_units rounds r.0 (cursor_at r.0 0) r.1.type_units) _
          λ us e'. ok-Gives P _ refl)
  where
    P : Dwarf → Type 0
    P = λ d1. d1.have_type_units ≡ true

-- A successful `get_type_unit` answers with a unit of the signature that was asked for, and the
-- same request again reads nothing: it gives the same unit and leaves the file as it is.
pub get_type_unit_again :
    (rounds sig : ℕ) (d : Dwarf) (u : UnitImpl) (d' : Dwarf)
    → get_type_unit rounds sig d ≡ ok (u, d')
    → (u.type_signature ≡ sig) × ((n : ℕ) → get_type_unit n sig d' ≡ ok (u, d'))
unfolding get_type_unit force_type_units
get_type_unit_again rounds sig d u d' e =
    let (d1, forced, e1) = >>=-eq-ok (force_type_units rounds d) _ e in
    let (w, known, e2) = >>=-eq-ok (known_unit sig (find_unit sig d1.type_units)) _ e1 in
    let same : d1 ≡ d' = ap (λ (r : UnitImpl × Dwarf). r.1) (ok_inj e2) in
    let unit_is : w ≡ u = ap (λ (r : UnitImpl × Dwarf). r.0) (ok_inj e2) in
    let have =
      subst (λ (x : Dwarf). x.have_type_units ≡ true) same
        (force_type_units-have rounds d d1 forced) in
    let found =
      subst (λ (x : Dwarf). known_unit sig (find_unit sig x.type_units) ≡ ok w) same known in
    (
      known_unit_signature sig d'.type_units u (found ∙ ap ok unit_is),
      λ n. rw (have, found ∙ ap ok unit_is) refl,
    )
