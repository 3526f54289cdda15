-- ===== src/Dwarf/Abbrev/Types.antt =====
-- dwarf/abbrev.cc: the outcomes of `resolve_type`.
use libelfin.Prelude.{
  ℕ, ◌≡◌, ◌≢◌, refl, ◌⊎◌, inl, inr, Bool, true, false, ◌&&◌, ◌||◌, arith, leb, Bool-cases,
}
use libelfin.Result.{
  Result-cases, ok, err, Error, format_error, sec_offset_not_expected, unknown_attribute_form,
}
use libelfin.Dwarf.Form.{Form}
use libelfin.Dwarf.Attribute.{any_of}
use libelfin.Dwarf.Abbrev.{ValueType, offset_attributes, sec_offset_type, data_type, resolve_type}

-- The attributes whose sections offsets the library knows: those of the earlier standards, and the
-- vendors'.
abbrev pub has_offset : ℕ → Bool
has_offset name = any_of name offset_attributes || (leb 0x2000 name && leb name 0x3fff)

sec_offset-known : (name : ℕ) (e : Error) → has_offset name ≡ true → sec_offset_type name ≢ err e
unfolding sec_offset_type
sec_offset-known name e h = ground arith

sec_offset-unknown :
    (name : ℕ)
    → has_offset name ≡ false
    → sec_offset_type name ≡ err (format_error (sec_offset_not_expected name))
unfolding sec_offset_type
sec_offset-unknown name h = ground arith

-- The pairs of an attribute and a form that have a type: a form of the standard, and for a section
-- offset an attribute that points into another section.
abbrev pub is_known : ℕ → Form → Bool
is_known name Form.sec_offset = has_offset name
is_known name (Form.other v) = false
is_known name _ = true

-- The exception for a pair that has none.
abbrev pub refusal : ℕ → Form → Error
refusal name (Form.other v) = format_error (unknown_attribute_form v)
refusal name _ = format_error (sec_offset_not_expected name)

abbrev Outcome : Bool → ℕ → Form → Type 0
Outcome known name form =
    ((known ≡ true) × ((t : ValueType) × (resolve_type name form ≡ ok t)))
    ⊎ ((known ≡ false) × (resolve_type name form ≡ err (refusal name form)))

offset_type : (name : ℕ) → has_offset name ≡ true → (t : ValueType) × (sec_offset_type name ≡ ok t)
offset_type name h = elim (Result-cases (sec_offset_type name)) [
  | inl found ↦ found
  | inr (e, failed) ↦ absurd (sec_offset-known name e h failed)
]

offset-has_offset : (name : ℕ) → any_of name offset_attributes ≡ true → has_offset name ≡ true
offset-has_offset name h = rw h

data_type_known : (name : ℕ) → (t : ValueType) × (data_type name ≡ ok t)
data_type_known name = elim (Bool-cases (any_of name offset_attributes)) [
  | inl offset ↦ rw offset (offset_type name (offset-has_offset name offset))
  | inr value ↦ rw value (ValueType.constant, refl)
]

-- `resolve_type` gives a type for every known pair, data4 and data8 of every attribute included, and
-- throws the format_error of the pair for every other.
pub resolve_type_cases : (name : ℕ) (form : Form) → Outcome (is_known name form) name form
unfolding resolve_type
resolve_type_cases name Form.sec_offset = elim (Bool-cases (has_offset name)) [
  | inl known ↦ inl (known, offset_type name known)
  | inr unknown ↦ inr (unknown, sec_offset-unknown name unknown)
]
resolve_type_cases name Form.data4 = inl (refl, data_type_known name)
resolve_type_cases name Form.data8 = inl (refl, data_type_known name)
resolve_type_cases name (Form.other v) = inr (refl, refl)
resolve_type_cases name _ = inl (refl, (_, refl))
