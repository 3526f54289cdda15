-- ===== src/Dwarf/Value/References.antt =====
-- dwarf/value.cc: following a reference throws no `value_type_mismatch`, since neither reading an
-- entry nor finding its unit does.
use libelfin.Dwarf.Value.Entries.{guard-Fits, abbrevs_of-Fits, read-Fits}
use libelfin.Prelude.{ℕ, zero, suc, ◌≡◌, Bool, true, false, Option, none, some, List, ltb, ◌==◌}
use libelfin.Result.{
  Result, ok, err, format_error, out_of_range, unknown_type_unit_version, guard, bind-Avoids,
  if-Avoids, ok-Avoids,
}
use libelfin.Word.{sub64}
use libelfin.Dwarf.Section.{Section, SectionType, Format, unknown, dwarf32, dwarf64}
use libelfin.Dwarf.Cursor.{
  Cursor, cursor_at, fixed, offset, subsection, skip_initial_length, initial_length_size,
  get_section_offset, at_end,
}
use libelfin.Dwarf.Form.{Form}
use libelfin.Dwarf.Units.{UnitImpl, type_unit}
use libelfin.Dwarf.File.{
  Dwarf, get_section, read_type_units, force_type_units, put_unit, known_unit, find_unit,
  get_type_unit, Loaded, add_section, found_or_load, find_section, is_type,
}
use libelfin.Dwarf.Die.{
  Die, die_of, abbrevs_of, type_die, read_in, find_base, rethrow, by_signature, in_unit,
  reference_of_form, root,
}
use libelfin.Dwarf.Value.Fits.{wrong, Fits, fixed-Fits, uleb128-Fits, offset-Fits}

subsection-Fits : (c : Cursor) → Fits (subsection c)
unfolding subsection
subsection-Fits c = bind-Avoids wrong (fixed 4 c) _ (fixed-Fits 4 c) λ a e.
    if-Avoids wrong (ltb a.0 0xffff_fff0) _ _ (ok-Avoids wrong _) (
      if-Avoids wrong (a.0 == 0xffff_ffff) _ _
        (bind-Avoids wrong (fixed 8 a.1) _ (fixed-Fits 8 a.1) λ b e'. ok-Avoids wrong _) (λ p. cc))

initial_length_size-Fits : (f : Format) → Fits (initial_length_size f)
initial_length_size-Fits dwarf32 = ok-Avoids wrong 4
initial_length_size-Fits dwarf64 = ok-Avoids wrong 12
initial_length_size-Fits unknown = λ p. cc

type_unit-Fits : (types : Section) (off : ℕ) → Fits (type_unit types off)
unfolding type_unit skip_initial_length
type_unit-Fits types off =
    bind-Avoids wrong (subsection (cursor_at types off)) _ (subsection-Fits _) λ a e.
      bind-Avoids wrong _ _
        (bind-Avoids wrong (initial_length_size a.0.fmt) _ (initial_length_size-Fits a.0.fmt)
          λ n e'. ok-Avoids wrong _)
        λ sub e1. bind-Avoids wrong (fixed 2 sub) _ (fixed-Fits 2 sub) λ v e2.
          bind-Avoids wrong (guard (v.0 == 4) (format_error (unknown_type_unit_version v.0))) _
            (guard-Fits (v.0 == 4) (format_error (unknown_type_unit_version v.0)) (λ p. cc))
            λ u g. bind-Avoids wrong (offset v.1) _ (offset-Fits v.1) λ o e3.
              bind-Avoids wrong (fixed 1 o.1) _ (fixed-Fits 1 o.1) λ w e4.
                bind-Avoids wrong (fixed 8 w.1) _ (fixed-Fits 8 w.1) λ x e5.
                  bind-Avoids wrong (offset x.1) _ (offset-Fits x.1) λ y e6. ok-Avoids wrong _

read_type_units-Fits :
    (rounds : ℕ) (types : Section) (c : Cursor) (us : List UnitImpl)
    → Fits (read_type_units rounds types c us)
unfolding read_type_units
read_type_units-Fits zero types c us = λ p. cc
read_type_units-Fits (suc rounds) types c us = if-Avoids wrong (at_end c) _ _ (ok-Avoids wrong us) (
    bind-Avoids wrong (type_unit types (get_section_offset c)) _ (type_unit-Fits types _) λ tu e.
      bind-Avoids wrong (subsection c) _ (subsection-Fits c)
        λ a e'. read_type_units-Fits rounds types a.1 (put_unit tu us))

add_section-Fits :
    (which : SectionType) (x : Option Loaded) (d : Dwarf) → Fits (add_section which x d)
add_section-Fits which none d = λ p. cc
add_section-Fits which (some x) d = ok-Avoids wrong _

found_or_load-Fits :
    (which : SectionType) (o : Option Section) (d : Dwarf) → Fits (found_or_load which o d)
found_or_load-Fits which none d = add_section-Fits which (d.l which) d
found_or_load-Fits which (some t) d = ok-Avoids wrong _

pub get_section-Fits : (which : SectionType) (d : Dwarf) → Fits (get_section which d)
unfolding get_section
get_section-Fits which d =
    if-Avoids wrong (is_type which SectionType.info) _ _ (ok-Avoids wrong _) (
      if-Avoids wrong (is_type which SectionType.abbrev_) _ _ (ok-Avoids wrong _)
        (found_or_load-Fits which (find_section which d.sections) d))

known_unit-Fits : (sig : ℕ) (o : Option UnitImpl) → Fits (known_unit sig o)
known_unit-Fits sig none = λ p. cc
known_unit-Fits sig (some u) = ok-Avoids wrong u

get_type_unit-Fits : (rounds sig : ℕ) (d : Dwarf) → Fits (get_type_unit rounds sig d)
unfolding get_type_unit force_type_units
get_type_unit-Fits rounds sig d =
    bind-Avoids wrong _ _
      (if-Avoids wrong d.have_type_units _ _ (ok-Avoids wrong d) (
        bind-Avoids wrong (get_section SectionType.types d) _ (get_section-Fits SectionType.types d)
          λ a e.
            bind-Avoids wrong _ _ (read_type_units-Fits rounds a.0 (cursor_at a.0 0) a.1.type_units)
              λ us e'. ok-Avoids wrong _))
      λ d' e.
        bind-Avoids wrong (known_unit sig (find_unit sig d'.type_units)) _
          (known_unit-Fits sig (find_unit sig d'.type_units)) λ u e'. ok-Avoids wrong _

rethrow-Fits : (sig : ℕ) (r : Result Die) → Fits r → Fits (rethrow sig r)
rethrow-Fits sig (ok die) h = λ p. cc
rethrow-Fits sig (err (out_of_range why)) h = λ p. cc
rethrow-Fits sig (err _) h = h

by_signature-Fits : (limit : ℕ) (d : Dwarf) (sig : ℕ) → Fits (by_signature limit d sig)
unfolding type_die
by_signature-Fits limit d sig = rethrow-Fits sig _ (
    bind-Avoids wrong _ _ (get_type_unit-Fits _ sig d) λ a e.
      bind-Avoids wrong (abbrevs_of limit a.1 a.0) _ (abbrevs_of-Fits limit a.1 a.0)
        λ t e'. read-Fits limit a.1 a.0.type_offset (die_of a.0))

in_unit-Fits :
    (limit : ℕ) (d : Dwarf) (cu : UnitImpl) (r : Result (ℕ × Cursor))
    → Fits r
    → Fits (in_unit limit d cu r)
in_unit-Fits limit d cu r h = bind-Avoids wrong r _ h λ a e. read-Fits limit d a.0 (die_of cu)

read_in-Fits :
    (limit : ℕ) (d : Dwarf) (off : ℕ) (o : Option UnitImpl) → Fits (read_in limit d off o)
read_in-Fits limit d off none = λ p. cc
read_in-Fits limit d off (some base) = read-Fits limit d (sub64 off base.offset) (die_of base)

-- The forms of references.
abbrev pub is_reference : Form → Bool
is_reference Form.ref1 = true
is_reference Form.ref2 = true
is_reference Form.ref4 = true
is_reference Form.ref8 = true
is_reference Form.ref_udata = true
is_reference Form.ref_addr = true
is_reference Form.ref_sig8 = true
is_reference _ = false

pub reference_of_form-Fits :
    (f : Form) (limit : ℕ) (d : Dwarf) (cu : UnitImpl) (c : Cursor)
    → is_reference f ≡ true
    → Fits (reference_of_form f limit d cu c)
reference_of_form-Fits Form.ref1 limit d cu c h = in_unit-Fits limit d cu _ (fixed-Fits 1 c)
reference_of_form-Fits Form.ref2 limit d cu c h = in_unit-Fits limit d cu _ (fixed-Fits 2 c)
reference_of_form-Fits Form.ref4 limit d cu c h = in_unit-Fits limit d cu _ (fixed-Fits 4 c)
reference_of_form-Fits Form.ref8 limit d cu c h = in_unit-Fits limit d cu _ (fixed-Fits 8 c)
reference_of_form-Fits Form.ref_udata limit d cu c h = in_unit-Fits limit d cu _ (uleb128-Fits c)
reference_of_form-Fits Form.ref_addr limit d cu c h =
    bind-Avoids wrong (offset c) _ (offset-Fits c)
      λ a e. read_in-Fits limit d a.0 (find_base none a.0 d.compilation_units)
reference_of_form-Fits Form.ref_sig8 limit d cu c h =
    bind-Avoids wrong (fixed 8 c) _ (fixed-Fits 8 c) λ a e. by_signature-Fits limit d a.0
reference_of_form-Fits _ limit d cu c h = absurd (cc)

pub root-Fits : (limit : ℕ) (d : Dwarf) (cu : UnitImpl) → Fits (root limit d cu)
unfolding root
root-Fits limit d cu =
    bind-Avoids wrong (abbrevs_of limit d cu) _ (abbrevs_of-Fits limit d cu)
      λ t e. read-Fits limit d cu.root_offset (die_of cu)
