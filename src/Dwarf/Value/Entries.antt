-- ===== src/Dwarf/Value/Entries.antt =====
-- dwarf/die.cc and dwarf/abbrev.cc: reading an entry throws no `value_type_mismatch`.
use libelfin.Prelude.{
  ℕ, zero, suc, ◌+◌, ◌-◌, ◌%◌, ◌≢◌, inl, inr, Bool, true, false, Option, none, some, List, [], ◌∷◌,
  ltb, leb, ◌==◌, ◌&&◌, length, get_elem?, set, bit_and,
}
use libelfin.Result.{Error, Result, bad_alloc, guard, bind-Avoids, if-Avoids, ok-Avoids}
use libelfin.Word.{u64_mod}
use libelfin.Dwarf.Section.{Format, unknown, dwarf32, dwarf64}
use libelfin.Dwarf.Cursor.{Cursor, cursor_at, fixed, uleb128, read_byte}
use libelfin.Dwarf.Form.{Form, form_of}
use libelfin.Dwarf.Skip.{
  skip_form, scan_leb, offset_size, skip_offset, skip_sized, skip_leb, skip_string,
}
use libelfin.Dwarf.Abbrev.{
  AttributeSpec, AbbrevEntry, resolve_type, attribute_spec, read_attributes, read_abbrev, to_int,
}
use libelfin.Dwarf.Abbrev.Types.{resolve_type_cases, refusal}
use libelfin.Dwarf.Abbrev.Table.{
  blank_entry, put_entry, read_entries, is_dense, move_entries, store_entries, force_abbrevs,
  known_entry, written_entry, lookup_in, find_entry, get_abbrev,
}
use libelfin.Dwarf.Units.{UnitImpl}
use libelfin.Dwarf.File.{Dwarf}
use libelfin.Dwarf.Die.{Die, abbrevs_of, read_attrs, read}
use libelfin.Dwarf.Value.Fits.{
  wrong, Fits, read_byte-Fits, fixed-Fits, uleb128-Fits, scan_string-Fits,
}

refusal-wrong : (name : ℕ) (f : Form) → refusal name f ≢ wrong
refusal-wrong name (Form.other v) = λ p. cc
refusal-wrong name _ = λ p. cc

resolve_type-Fits : (name : ℕ) (f : Form) → Fits (resolve_type name f)
resolve_type-Fits name f = elim (resolve_type_cases name f) [
  | inl (known, (t, e)) ↦ λ p. cc
  | inr (other, e) ↦ λ p. refusal-wrong name f (cc)
]

pub guard-Fits : (b : Bool) (e : Error) → e ≢ wrong → Fits (guard b e)
guard-Fits true e h = λ p. cc
guard-Fits false e h = λ p. h (cc)

scan_leb-Fits : (n : ℕ) (mem : List ℕ) (p : ℕ) → Fits (scan_leb n mem p)
unfolding scan_leb
scan_leb-Fits zero mem p = ok-Avoids wrong p
scan_leb-Fits (suc n) mem p = bind-Avoids wrong (read_byte mem p) _ (read_byte-Fits mem p) λ b e.
    if-Avoids wrong (bit_and b 0x80 == 0) _ _ (ok-Avoids wrong _) (scan_leb-Fits n mem (p + 1))

offset_size-Fits : (f : Format) → Fits (offset_size f)
offset_size-Fits dwarf32 = ok-Avoids wrong 4
offset_size-Fits dwarf64 = ok-Avoids wrong 8
offset_size-Fits unknown = λ p. cc

skip_offset-Fits : (c : Cursor) → Fits (skip_offset c)
skip_offset-Fits c =
    bind-Avoids wrong (offset_size c.sec.fmt) _ (offset_size-Fits c.sec.fmt)
      λ n e. ok-Avoids wrong _

skip_sized-Fits : (r : Result (ℕ × Cursor)) → Fits r → Fits (skip_sized r)
skip_sized-Fits r h = bind-Avoids wrong r _ h λ a e. ok-Avoids wrong _

skip_leb-Fits : (c : Cursor) → Fits (skip_leb c)
skip_leb-Fits c =
    bind-Avoids wrong _ _ (scan_leb-Fits (c.sec.end - c.pos) c.sec.mem c.pos)
      λ p e. ok-Avoids wrong _

skip_string-Fits : (c : Cursor) → Fits (skip_string c)
skip_string-Fits c =
    bind-Avoids wrong _ _ (scan_string-Fits (c.sec.end - c.pos) c.sec.mem c.pos)
      λ p e. ok-Avoids wrong _

skip_form-Fits : (f : Form) (fuel : ℕ) (c : Cursor) → Fits (skip_form f fuel c)
unfolding skip_form
skip_form-Fits Form.sec_offset fuel c = skip_offset-Fits c
skip_form-Fits Form.ref_addr fuel c = skip_offset-Fits c
skip_form-Fits Form.strp fuel c = skip_offset-Fits c
skip_form-Fits Form.block1 fuel c = skip_sized-Fits (fixed 1 c) (fixed-Fits 1 c)
skip_form-Fits Form.block2 fuel c = skip_sized-Fits (fixed 2 c) (fixed-Fits 2 c)
skip_form-Fits Form.block4 fuel c = skip_sized-Fits (fixed 4 c) (fixed-Fits 4 c)
skip_form-Fits Form.block fuel c = skip_sized-Fits (uleb128 c) (uleb128-Fits c)
skip_form-Fits Form.exprloc fuel c = skip_sized-Fits (uleb128 c) (uleb128-Fits c)
skip_form-Fits Form.sdata fuel c = skip_leb-Fits c
skip_form-Fits Form.udata fuel c = skip_leb-Fits c
skip_form-Fits Form.ref_udata fuel c = skip_leb-Fits c
skip_form-Fits Form.string fuel c = skip_string-Fits c
skip_form-Fits Form.indirect zero c = λ p. cc
skip_form-Fits Form.indirect (suc fuel) c =
    bind-Avoids wrong (uleb128 c) _ (uleb128-Fits c) λ a e. skip_form-Fits (form_of a.0) fuel a.1
skip_form-Fits Form.ref8 fuel c = λ p. cc
skip_form-Fits (Form.other v) fuel c = λ p. cc
skip_form-Fits _ fuel c = ok-Avoids wrong _

read_attributes-Fits : (fuel : ℕ) (c : Cursor) → Fits (read_attributes fuel c)
unfolding read_attributes
read_attributes-Fits zero c = λ p. cc
read_attributes-Fits (suc fuel) c = bind-Avoids wrong (uleb128 c) _ (uleb128-Fits c) λ n e.
    bind-Avoids wrong (uleb128 n.1) _ (uleb128-Fits n.1) λ f e'.
      if-Avoids wrong (to_int n.0 == 0 && to_int f.0 == 0) _ _ (ok-Avoids wrong _) (
        bind-Avoids wrong (attribute_spec (to_int n.0) (form_of f.0)) _
          (bind-Avoids wrong (resolve_type (to_int n.0) (form_of f.0)) _
            (resolve_type-Fits (to_int n.0) (form_of f.0)) λ t e2. ok-Avoids wrong _)
          λ spec e3.
            bind-Avoids wrong (read_attributes fuel f.1) _ (read_attributes-Fits fuel f.1)
              λ r e4. ok-Avoids wrong _)

read_abbrev-Fits : (fuel : ℕ) (x : AbbrevEntry) (c : Cursor) → Fits (read_abbrev fuel x c)
unfolding read_abbrev
read_abbrev-Fits fuel x c = bind-Avoids wrong (uleb128 c) _ (uleb128-Fits c) λ code e.
    if-Avoids wrong (code.0 == 0) _ _ (ok-Avoids wrong _) (
      bind-Avoids wrong (uleb128 code.1) _ (uleb128-Fits code.1) λ tag e1.
        bind-Avoids wrong (fixed 1 tag.1) _ (fixed-Fits 1 tag.1) λ children e2.
          bind-Avoids wrong (read_attributes fuel children.1) _
            (read_attributes-Fits fuel children.1) λ specs e3. ok-Avoids wrong _)

read_entries-Fits :
    (rounds fuel : ℕ) (x : AbbrevEntry) (c : Cursor) (m : List AbbrevEntry) (highest : ℕ)
    → Fits (read_entries rounds fuel x c m highest)
unfolding read_entries
read_entries-Fits zero fuel x c m highest = λ p. cc
read_entries-Fits (suc rounds) fuel x c m highest =
    bind-Avoids wrong (read_abbrev fuel x c) _ (read_abbrev-Fits fuel x c) λ a e.
      if-Avoids wrong a.0 _ _ (read_entries-Fits rounds fuel a.1 a.2 (put_entry a.1 m) _)
        (ok-Avoids wrong _)

move_entries-Fits : (m vec : List AbbrevEntry) → Fits (move_entries m vec)
unfolding move_entries
move_entries-Fits [] vec = ok-Avoids wrong vec
move_entries-Fits (x ∷ m) vec =
    if-Avoids wrong (ltb x.code (length vec)) _ _ (move_entries-Fits m (set vec x.code x)) (λ p. cc)

pub abbrevs_of-Fits : (limit : ℕ) (d : Dwarf) (cu : UnitImpl) → Fits (abbrevs_of limit d cu)
unfolding abbrevs_of force_abbrevs store_entries
abbrevs_of-Fits limit d cu = bind-Avoids wrong _ _ (read_entries-Fits _ _ blank_entry _ [] 0) λ a e.
    if-Avoids wrong (is_dense a.0 a.1) _ _
      (bind-Avoids wrong (guard (leb ((a.1 + 1) % u64_mod) limit) bad_alloc) _
        (guard-Fits (leb ((a.1 + 1) % u64_mod) limit) bad_alloc (λ p. cc))
        λ u g. bind-Avoids wrong _ _ (move_entries-Fits a.0 _) λ vec e'. ok-Avoids wrong _)
      (ok-Avoids wrong _)

known_entry-Fits : (code : ℕ) (o : Option AbbrevEntry) → Fits (known_entry code o)
known_entry-Fits code none = λ p. cc
known_entry-Fits code (some x) = ok-Avoids wrong x

written_entry-Fits : (code : ℕ) (o : Option AbbrevEntry) → Fits (written_entry code o)
written_entry-Fits code none = λ p. cc
written_entry-Fits code (some x) = if-Avoids wrong (x.code == 0) _ _ (λ p. cc) (ok-Avoids wrong x)

lookup_in-Fits : (vec m : List AbbrevEntry) (code : ℕ) → Fits (lookup_in vec m code)
lookup_in-Fits [] m code = known_entry-Fits code (find_entry code m)
lookup_in-Fits (x ∷ vec) m code = written_entry-Fits code (get_elem? (x ∷ vec) code)

read_attrs-Fits : (specs : List AttributeSpec) (c : Cursor) → Fits (read_attrs specs c)
unfolding read_attrs
read_attrs-Fits [] c = ok-Avoids wrong _
read_attrs-Fits (a ∷ later) c =
    bind-Avoids wrong (skip_form a.form (suc (c.sec.end - c.pos)) c) _
      (skip_form-Fits a.form (suc (c.sec.end - c.pos)) c)
      λ c' e.
        bind-Avoids wrong (read_attrs later c') _ (read_attrs-Fits later c')
          λ r e'. ok-Avoids wrong _

pub read-Fits : (limit : ℕ) (d : Dwarf) (off : ℕ) (die : Die) → Fits (read limit d off die)
unfolding read get_abbrev
read-Fits limit d off die =
    bind-Avoids wrong (uleb128 (cursor_at die.cu.subsec off)) _ (uleb128-Fits _) λ a e.
      if-Avoids wrong (a.0 == 0) _ _ (ok-Avoids wrong _) (
        bind-Avoids wrong (abbrevs_of limit d die.cu) _ (abbrevs_of-Fits limit d die.cu) λ t e1.
          bind-Avoids wrong (get_abbrev t a.0) _ (lookup_in-Fits t.vec t.map a.0) λ x e2.
            bind-Avoids wrong (read_attrs x.attributes a.1) _ (read_attrs-Fits x.attributes a.1)
              λ r e3. ok-Avoids wrong _)
