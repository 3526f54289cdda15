-- ===== src/Dwarf/Value/Mismatch.antt =====
-- dwarf/value.cc: which accessor reads a value of which type, and the values of the form indirect.
use mathlib.Core.Path.{subst}
use libelfin.Prelude.{
  ℕ, suc, ◌-◌, ◌≡◌, refl, sym, ap, inl, inr, ◌⊎◌, true, false, Bool-cases, ◌==◌, leb, ◌&&◌, [], ◌∷◌,
}
use libelfin.Result.{
  Result, ok, err, ◌>>=◌, bind-Avoids, ok-Avoids, Gives, ok-Gives, if-Gives, >>=-eq-ok, ok_inj,
}
use libelfin.Dwarf.Section.{SectionType}
use libelfin.Dwarf.Cursor.{
  cstr, ensure, fixed, fixed_signed, uleb128, sleb128, address, offset, Cursor, cursor_at,
}
use libelfin.Dwarf.Value.References.{is_reference, reference_of_form-Fits, get_section-Fits}
use libelfin.Dwarf.Value.Fits.{
  wrong, Fits, ensure-Fits, fixed-Fits, fixed_signed-Fits, uleb128-Fits, sleb128-Fits, cstr-Fits,
  address-Fits, offset-Fits,
}
use libelfin.Dwarf.Form.{Form}
use libelfin.Dwarf.Attribute
use libelfin.Dwarf.Attribute.{any_of}
use libelfin.Dwarf.Abbrev.{
  offset_attributes, loclist_attributes, expression_attributes, ValueType, resolve_type,
  sec_offset_type, data_type, block_type, attribute_spec,
}
use libelfin.Dwarf.Units.{UnitImpl}
use libelfin.Dwarf.File.{Dwarf, get_section}
use libelfin.Dwarf.Die.{as_reference, as_rangelist, root, low_pc_of}
use libelfin.Dwarf.Value.{
  Value, value_cursor, mismatch, is_indirect, skip_indirect, resolve_indirect, make_value, just,
  as_address, as_block, as_uconstant, as_sconstant, as_exprloc, as_flag, as_cstr, as_string,
  as_sec_offset, text_at, block_size,
}

-- The accessors for a type do not refuse the value. Those for range lists also read the low address
-- of the unit: `as_rangelist` refuses only if that is refused. For a value without a type there is
-- no accessor.
abbrev pub Readable : ℕ → Dwarf → Value → ValueType → Type 0
Readable limit d v ValueType.address = Fits (as_address v)
Readable limit d v ValueType.block = Fits (as_block v)
Readable limit d v ValueType.constant = Fits (as_uconstant v) × Fits (as_sconstant v)
Readable limit d v ValueType.uconstant = Fits (as_uconstant v)
Readable limit d v ValueType.sconstant = Fits (as_sconstant v)
Readable limit d v ValueType.exprloc = Fits (as_exprloc v) × Fits (as_block v)
Readable limit d v ValueType.flag = Fits (as_flag v)
Readable limit d v ValueType.line = Fits (as_sec_offset v)
Readable limit d v ValueType.loclist = Fits (as_sec_offset v)
Readable limit d v ValueType.mac = Fits (as_sec_offset v)
Readable limit d v ValueType.rangelist =
    Fits (as_sec_offset v)
    × (as_rangelist limit d v ≡ mismatch → (root limit d v.cu >>= low_pc_of) ≡ mismatch)
Readable limit d v ValueType.reference = Fits (as_reference limit d v)
Readable limit d v ValueType.string = Fits (as_cstr d v) × Fits (as_string d v)
Readable limit d v ValueType.invalid = Unit {0}

just-Fits : (r : Result (ℕ × Cursor)) → Fits r → Fits (just r)
just-Fits r h = bind-Avoids wrong r _ h λ a e. ok-Avoids wrong _

bind_wrong :
    {A B : Type 0} (r : Result A) (k : A → Result B)
    → (r >>= k) ≡ err wrong
    → (r ≡ err wrong) ⊎ ((a : A) × (r ≡ ok a) × (k a ≡ err wrong))
bind_wrong (ok a) k e = inr (a, refl, e)
bind_wrong (err why) k e = inl (cc)

rangelist_refuses :
    (limit : ℕ) (d : Dwarf) (v : Value)
    → Fits (as_sec_offset v)
    → as_rangelist limit d v ≡ mismatch
    → (root limit d v.cu >>= low_pc_of) ≡ mismatch
unfolding as_rangelist
rangelist_refuses limit d v h e = elim (bind_wrong (as_sec_offset v) _ e) [
  | inl refused ↦ absurd (h refused)
  | inr (off, found, e1) ↦ elim (bind_wrong (root limit d v.cu) _ e1) [
    | inl refused ↦ rw refused refl
    | inr (cudie, at_root, e2) ↦ elim (bind_wrong (low_pc_of cudie) _ e2) [
      | inl refused ↦ rw at_root refused
      | inr (low, at_low, e3) ↦ elim (bind_wrong (get_section SectionType.ranges d) _ e3) [
        | inl refused ↦ absurd (get_section-Fits SectionType.ranges d refused)
        | inr (a, opened, e4) ↦ absurd (cc)
      ]
    ]
  ]
]

-- The value of a form.
abbrev value_of : UnitImpl → Form → ValueType → ℕ → Value
value_of cu form type offset = record { cu = cu; form = form; type = type; offset = offset }

module _ (limit : ℕ) (d : Dwarf) (cu : UnitImpl) (off : ℕ) where
  abbrev cur : Cursor
  cur = cursor_at cu.subsec off

  abbrev Fine : Form → ValueType → Type 0
  Fine f t = Readable limit d (value_of cu f t off) t

  block_size-Fits :
      (f : Form)
      → Fits (block_size f cur)
      → (t : ValueType)
      → Fits (as_block (value_of cu f t off)) × Fits (as_exprloc (value_of cu f t off))
  unfolding as_block as_exprloc
  block_size-Fits f h t = (
    bind-Avoids wrong (block_size f cur) _ h
        λ a e. bind-Avoids wrong (ensure a.0 a.1) _ (ensure-Fits a.0 a.1) λ u e'. ok-Avoids wrong _,
    bind-Avoids wrong (block_size f cur) _ h λ a e. ok-Avoids wrong _,
  )

  block-Fine :
      (f : Form) (name : ℕ) → Fits (block_size f cur) → Gives (Fine f) (ok (block_type name))
  block-Fine f name h = elim (Bool-cases (any_of name expression_attributes)) [
    | inl is ↦ rw is (
        let (b, x) = block_size-Fits f h ValueType.exprloc in
        ok-Gives (Fine f) ValueType.exprloc (x, b))
    | inr other ↦
        rw other (ok-Gives (Fine f) ValueType.block (block_size-Fits f h ValueType.block).0)
  ]

  sec_offset_type-Fine :
      (f : Form) (name : ℕ)
      → Fits (as_sec_offset (value_of cu f ValueType.line off))
      → Gives (Fine f) (sec_offset_type name)
  unfolding sec_offset_type as_sec_offset
  sec_offset_type-Fine f name h =
      if-Gives P (name == Attribute.stmt_list) _ _ (ok-Gives P ValueType.line h) (
        if-Gives P (any_of name loclist_attributes) _ _ (ok-Gives P ValueType.loclist h) (
          if-Gives P (name == Attribute.macro_info) _ _ (ok-Gives P ValueType.mac h) (
            if-Gives P (any_of name (Attribute.start_scope ∷ Attribute.ranges ∷ [])) _ _
              (ok-Gives P ValueType.rangelist
                (h, rangelist_refuses limit d (value_of cu f ValueType.rangelist off) h))
              (if-Gives P (leb Attribute.lo_user name && leb name Attribute.hi_user) _ _
                (ok-Gives P ValueType.invalid tt) (λ t e. absurd (cc))))))
    where
      P : ValueType → Type 0
      P = Fine f

  data_type-Fine :
      (f : Form) (name : ℕ)
      → Fits (as_sec_offset (value_of cu f ValueType.line off))
      → Fine f ValueType.constant
      → Gives (Fine f) (data_type name)
  data_type-Fine f name h k =
      if-Gives (Fine f) (any_of name offset_attributes) _ _ (sec_offset_type-Fine f name h)
        (ok-Gives (Fine f) ValueType.constant k)

  fixed-just : (n : ℕ) → Fits (just (fixed n cur))
  fixed-just n = just-Fits (fixed n cur) (fixed-Fits n cur)

  fixed_signed-just : (n : ℕ) → Fits (just (fixed_signed n cur))
  fixed_signed-just n = just-Fits (fixed_signed n cur) (fixed_signed-Fits n cur)

  text_at-Fits : (c : Cursor) → Fits (text_at c)
  text_at-Fits c = bind-Avoids wrong (cstr c) _ (cstr-Fits c) λ a e. ok-Avoids wrong _

  string-Fine :
      (f : Form) → Fits (as_cstr d (value_of cu f ValueType.string off)) → Fine f ValueType.string
  unfolding as_string
  string-Fine f h = (
    h,
    bind-Avoids wrong (as_cstr d (value_of cu f ValueType.string off)) _ h λ a e. ok-Avoids wrong _,
  )

  reference-Fine : (f : Form) → is_reference f ≡ true → Gives (Fine f) (ok ValueType.reference)
  unfolding as_reference
  reference-Fine f h =
      ok-Gives (Fine f) ValueType.reference (reference_of_form-Fits f limit d cu cur h)

  resolve_type-Fine :
      (name : ℕ) (f : Form) → is_indirect f ≡ false → Gives (Fine f) (resolve_type name f)
  unfolding resolve_type as_address as_uconstant as_sconstant as_flag as_sec_offset as_cstr
  resolve_type-Fine name Form.addr h =
      ok-Gives (Fine Form.addr) ValueType.address (just-Fits (address cur) (address-Fits cur))
  resolve_type-Fine name Form.block h = block-Fine Form.block name (uleb128-Fits cur)
  resolve_type-Fine name Form.block1 h = block-Fine Form.block1 name (fixed-Fits 1 cur)
  resolve_type-Fine name Form.block2 h = block-Fine Form.block2 name (fixed-Fits 2 cur)
  resolve_type-Fine name Form.block4 h = block-Fine Form.block4 name (fixed-Fits 4 cur)
  resolve_type-Fine name Form.data1 h =
      ok-Gives (Fine Form.data1) ValueType.constant (fixed-just 1, fixed_signed-just 1)
  resolve_type-Fine name Form.data2 h =
      ok-Gives (Fine Form.data2) ValueType.constant (fixed-just 2, fixed_signed-just 2)
  resolve_type-Fine name Form.data4 h =
      data_type-Fine Form.data4 name (fixed-just 4) (fixed-just 4, fixed_signed-just 4)
  resolve_type-Fine name Form.data8 h =
      data_type-Fine Form.data8 name (fixed-just 8) (fixed-just 8, fixed_signed-just 8)
  resolve_type-Fine name Form.udata h =
      ok-Gives (Fine Form.udata) ValueType.uconstant (just-Fits (uleb128 cur) (uleb128-Fits cur))
  resolve_type-Fine name Form.sdata h =
      ok-Gives (Fine Form.sdata) ValueType.sconstant (just-Fits (sleb128 cur) (sleb128-Fits cur))
  resolve_type-Fine name Form.exprloc h =
      let (b, x) = block_size-Fits Form.exprloc (uleb128-Fits cur) ValueType.exprloc in
      ok-Gives (Fine Form.exprloc) ValueType.exprloc (x, b)
  resolve_type-Fine name Form.flag h =
      ok-Gives (Fine Form.flag) ValueType.flag
        (bind-Avoids wrong (fixed 1 cur) _ (fixed-Fits 1 cur) λ a e. ok-Avoids wrong _)
  resolve_type-Fine name Form.flag_present h =
      ok-Gives (Fine Form.flag_present) ValueType.flag (ok-Avoids wrong _)
  resolve_type-Fine name Form.ref1 h = reference-Fine Form.ref1 refl
  resolve_type-Fine name Form.ref2 h = reference-Fine Form.ref2 refl
  resolve_type-Fine name Form.ref4 h = reference-Fine Form.ref4 refl
  resolve_type-Fine name Form.ref8 h = reference-Fine Form.ref8 refl
  resolve_type-Fine name Form.ref_addr h = reference-Fine Form.ref_addr refl
  resolve_type-Fine name Form.ref_sig8 h = reference-Fine Form.ref_sig8 refl
  resolve_type-Fine name Form.ref_udata h = reference-Fine Form.ref_udata refl
  resolve_type-Fine name Form.string h =
      ok-Gives (Fine Form.string) ValueType.string (string-Fine Form.string (text_at-Fits cur))
  resolve_type-Fine name Form.strp h = ok-Gives (Fine Form.strp) ValueType.string (
      string-Fine Form.strp (
        bind-Avoids wrong (offset cur) _ (offset-Fits cur) λ a e.
          bind-Avoids wrong (get_section SectionType.str d) _ (get_section-Fits SectionType.str d)
            λ b e'. text_at-Fits (cursor_at b.0 a.0)))
  resolve_type-Fine name Form.indirect h = absurd (cc)
  resolve_type-Fine name Form.sec_offset h =
      sec_offset_type-Fine Form.sec_offset name (just-Fits (offset cur) (offset-Fits cur))
  resolve_type-Fine name (Form.other v) h = λ t e. absurd (cc)

-- A value of a form other than indirect, with the type that `resolve_type` gives its attribute and
-- form, is read by the accessors for its type: whatever stands in the file, none of them throws
-- `value_type_mismatch`, as_reference included, but for as_rangelist, which throws it only if reading
-- the low address of its unit's root throws it. (A value of the type invalid has no accessor.)
pub make_value-Readable :
    (limit : ℕ) (d : Dwarf) (cu : UnitImpl) (name off : ℕ) (f : Form) (t : ValueType) (v : Value)
    → is_indirect f ≡ false
    → resolve_type name f ≡ ok t
    → make_value cu name f t off ≡ ok v
    → Readable limit d v t
unfolding make_value resolve_indirect
make_value-Readable limit d cu name off f t v direct typed made =
    let made' : ok (value_of cu f t off) ≡ ok v = rw direct at made in
    subst (λ (w : Value). Readable limit d w t) (ok_inj made')
      (resolve_type-Fine limit d cu off name f direct t typed)

-- A value of the form indirect keeps that form when its real form is found, so that every accessor,
-- those for references and range lists included, throws `value_type_mismatch` at it, whatever its
-- type.
pub indirect_unreadable :
    (limit : ℕ) (d : Dwarf) (cu : UnitImpl) (name off : ℕ) (t : ValueType) (v : Value)
    → make_value cu name Form.indirect t off ≡ ok v
    → (as_address v ≡ mismatch)
      × (as_block v ≡ mismatch)
      × (as_uconstant v ≡ mismatch)
      × (as_sconstant v ≡ mismatch)
      × (as_exprloc v ≡ mismatch)
      × (as_flag v ≡ mismatch)
      × (as_cstr d v ≡ mismatch)
      × (as_string d v ≡ mismatch)
      × (as_sec_offset v ≡ mismatch)
      × (as_reference limit d v ≡ mismatch)
      × (as_rangelist limit d v ≡ mismatch)
unfolding make_value resolve_indirect as_address as_block as_uconstant as_sconstant as_exprloc
    as_flag as_cstr as_string as_sec_offset as_reference as_rangelist
indirect_unreadable limit d cu name off t v made =
    let v0 = value_of cu Form.indirect t off in
    let (a, found, e1) =
      >>=-eq-ok (skip_indirect (suc (cu.subsec.end - (value_cursor v0).pos)) (value_cursor v0)) _
        made in
    let (spec, typed, e2) = >>=-eq-ok (attribute_spec name a.0) _ e1 in
    let keeps : v.form ≡ Form.indirect = ap (λ (w : Value). w.form) (sym (ok_inj e2)) in
    rw keeps (refl, refl, refl, refl, refl, refl, refl, refl, refl, refl, refl)
