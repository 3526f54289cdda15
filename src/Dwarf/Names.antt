-- ===== src/Dwarf/Names.antt =====
-- dwarf/elf.cc: the names of the sections in an ELF file. A name is the list of its characters.
use mathlib.Core.Path.{subst}
use libelfin.Prelude.{
  ℕ, ◌≡◌, refl, ap, ◌∙◌, inl, inr, Bool, true, false, ◌&&◌, Option, none, some, List, [], ◌∷◌, ◌==◌,
  ==_iff, if◌then◌else◌, Bool-cases, All,
}
use libelfin.Dwarf.Section.{SectionType}
use libelfin.Dwarf.File.{is_type}

-- `".debug_" …`
abbrev debug : List ℕ → List ℕ
debug rest = 46 ∷ 100 ∷ 101 ∷ 98 ∷ 117 ∷ 103 ∷ 95 ∷ rest

-- `sections`, in the order of the table
abbrev pub section_names : List (List ℕ × SectionType)
section_names =
    (debug (97 ∷ 98 ∷ 98 ∷ 114 ∷ 101 ∷ 118 ∷ []), SectionType.abbrev_)
    ∷ (debug (97 ∷ 114 ∷ 97 ∷ 110 ∷ 103 ∷ 101 ∷ 115 ∷ []), SectionType.aranges)
    ∷ (debug (102 ∷ 114 ∷ 97 ∷ 109 ∷ 101 ∷ []), SectionType.frame)
    ∷ (debug (105 ∷ 110 ∷ 102 ∷ 111 ∷ []), SectionType.info)
    ∷ (debug (108 ∷ 105 ∷ 110 ∷ 101 ∷ []), SectionType.line)
    ∷ (debug (108 ∷ 111 ∷ 99 ∷ []), SectionType.loc)
    ∷ (debug (109 ∷ 97 ∷ 99 ∷ 105 ∷ 110 ∷ 102 ∷ 111 ∷ []), SectionType.macinfo)
    ∷ (debug (112 ∷ 117 ∷ 98 ∷ 110 ∷ 97 ∷ 109 ∷ 101 ∷ 115 ∷ []), SectionType.pubnames)
    ∷ (debug (112 ∷ 117 ∷ 98 ∷ 116 ∷ 121 ∷ 112 ∷ 101 ∷ 115 ∷ []), SectionType.pubtypes)
    ∷ (debug (114 ∷ 97 ∷ 110 ∷ 103 ∷ 101 ∷ 115 ∷ []), SectionType.ranges)
    ∷ (debug (115 ∷ 116 ∷ 114 ∷ []), SectionType.str)
    ∷ (debug (116 ∷ 121 ∷ 112 ∷ 101 ∷ 115 ∷ []), SectionType.types)
    ∷ []

-- `strcmp(a, b) == 0`
unfoldable pub same_text : List ℕ → List ℕ → Bool
same_text [] [] = true
same_text [] (b ∷ bs) = false
same_text (a ∷ as_) [] = false
same_text (a ∷ as_) (b ∷ bs) = a == b && same_text as_ bs

unfoldable pub find_name : List ℕ → List (List ℕ × SectionType) → Option SectionType
find_name name [] = none
find_name name ((n, t) ∷ rest) = if same_text n name then some t else find_name name rest

unfoldable pub find_type : SectionType → List (List ℕ × SectionType) → Option (List ℕ)
find_type which [] = none
find_type which ((n, t) ∷ rest) = if is_type t which then some n else find_type which rest

-- `elf::section_name_to_type`
pub section_name_to_type : List ℕ → Option SectionType
section_name_to_type name = find_name name section_names

-- `elf::section_type_to_name`
pub section_type_to_name : SectionType → Option (List ℕ)
section_type_to_name which = find_type which section_names

same_text_equal : (a b : List ℕ) → same_text a b ≡ true → a ≡ b
unfolding same_text
same_text_equal [] [] e = refl
same_text_equal [] (b ∷ bs) e = absurd (cc)
same_text_equal (a ∷ as_) [] e = absurd (cc)
same_text_equal (a ∷ as_) (b ∷ bs) e = elim (Bool-cases (a == b)) [
  | inl is ↦
      let heads = (==_iff a b).0 is in
      let tails = same_text_equal as_ bs (rw is at e) in
      ap (λ (x : ℕ). x ∷ as_) heads ∙ ap (λ (l : List ℕ). b ∷ l) tails
  | inr differ ↦ absurd (cc (rw differ at e))
]

abbrev Named : List ℕ × SectionType → Type 0
Named entry = find_type entry.1 section_names ≡ some entry.0

-- Where the entries of a table have the names of their types, so has one that is found.
find_name-Named :
    (name : List ℕ) (t : SectionType) (table : List (List ℕ × SectionType))
    → All Named table
    → find_name name table ≡ some t
    → Named (name, t)
unfolding find_name
find_name-Named name t [] all e = absurd (cc)
find_name-Named name t ((n, u) ∷ table) all e = elim (Bool-cases (same_text n name)) [
  | inl is ↦
      let text : n ≡ name = same_text_equal n name is in
      let kind : u ≡ t = cc (rw is at e) in
      subst (λ w. find_type w section_names ≡ some name) kind (all.0 ∙ ap some text)
  | inr other ↦ find_name-Named name t table all.1 (rw other at e)
]

section_names-Named : All Named section_names
unfolding find_type
section_names-Named = (
  refl,
  (refl, (refl, (refl, (refl, (refl, (refl, (refl, (refl, (refl, (refl, (refl, tt))))))))))),
)

-- Every type has a name, which leads back to it; and a name that leads to a type is its name, so
-- that no two sections share one.
pub section_names_agree :
    ((t : SectionType)
      → (name : List ℕ) × (section_type_to_name t ≡ some name)
        × (section_name_to_type name ≡ some t))
    × ((name : List ℕ) (t : SectionType)
        → section_name_to_type name ≡ some t
        → section_type_to_name t ≡ some name)
unfolding section_type_to_name section_name_to_type find_name find_type same_text
section_names_agree =
    (there, λ name t e. find_name-Named name t section_names section_names-Named e)
  where
    there :
        (t : SectionType)
        → (name : List ℕ) × (find_type t section_names ≡ some name)
          × (find_name name section_names ≡ some t)
    there SectionType.abbrev_ = (debug (97 ∷ 98 ∷ 98 ∷ 114 ∷ 101 ∷ 118 ∷ []), refl, refl)
    there SectionType.aranges = (debug (97 ∷ 114 ∷ 97 ∷ 110 ∷ 103 ∷ 101 ∷ 115 ∷ []), refl, refl)
    there SectionType.frame = (debug (102 ∷ 114 ∷ 97 ∷ 109 ∷ 101 ∷ []), refl, refl)
    there SectionType.info = (debug (105 ∷ 110 ∷ 102 ∷ 111 ∷ []), refl, refl)
    there SectionType.line = (debug (108 ∷ 105 ∷ 110 ∷ 101 ∷ []), refl, refl)
    there SectionType.loc = (debug (108 ∷ 111 ∷ 99 ∷ []), refl, refl)
    there SectionType.macinfo = (debug (109 ∷ 97 ∷ 99 ∷ 105 ∷ 110 ∷ 102 ∷ 111 ∷ []), refl, refl)
    there SectionType.pubnames =
        (debug (112 ∷ 117 ∷ 98 ∷ 110 ∷ 97 ∷ 109 ∷ 101 ∷ 115 ∷ []), refl, refl)
    there SectionType.pubtypes =
        (debug (112 ∷ 117 ∷ 98 ∷ 116 ∷ 121 ∷ 112 ∷ 101 ∷ 115 ∷ []), refl, refl)
    there SectionType.ranges = (debug (114 ∷ 97 ∷ 110 ∷ 103 ∷ 101 ∷ 115 ∷ []), refl, refl)
    there SectionType.str = (debug (115 ∷ 116 ∷ 114 ∷ []), refl, refl)
    there SectionType.types = (debug (116 ∷ 121 ∷ 112 ∷ 101 ∷ 115 ∷ []), refl, refl)
