-- ===== src/Dwarf/Line/Program/Rows.antt =====
-- dwarf/line.cc: the registers of the line number program under `step`.
use mathlib.Core.Path.{subst}
use libelfin.Prelude.{ℕ, ◌<◌, ◌≡◌, sym, ap, ◌∙◌, Bool, false, Option, none, some, arith, leb, ◌==◌}
use libelfin.Result.{ok, guard, Gives, ok-Gives, bind-Gives, if-Gives}
use libelfin.Word.{add64}
use libelfin.Dwarf.Section.{Section}
use libelfin.Dwarf.Cursor.{Cursor, get_section_offset, fixed, uleb128, address}
use libelfin.Dwarf.Cursor.Image.{InImage}
use libelfin.Dwarf.Cursor.Progress.{
  Forward, Onward, Forward-Onward, Onward-refl, fixed-Forward, uleb128-Forward, address-Forward,
}
use libelfin.Dwarf.Line.{Row, read_file_entry}
use libelfin.Dwarf.Line.Files.{Extends, Extends-refl, Forward-trans, read_file_entry-Reads}
use libelfin.Dwarf.Line.Program.{
  Lne, State, lns_of, lne_of, step_standard, step_extension, step_extended, step,
}
use libelfin.Dwarf.Line.Program.Ready.{
  IsRow, IsReady, Keeps, reset-IsRow, with_regs, moved, special-Keeps, read_field, standard-Keeps,
}

extension-Keeps :
    (o : Option Lne) (opcode : ℕ) (s : State)
    → IsReady s
    → Gives (Keeps s) (step_extension o opcode s)
unfolding step_extension
extension-Keeps (some Lne.end_sequence) opcode s v = ok-Gives (Keeps s) _ (
  record {
    operations = v.operations;
    regs = reset-IsRow s.table.maximum_operations s.table.default_is_stmt v.operations;
    entry = let w = v.regs in omega arith;
    image = v.image;
    here = v.here;
  },
  Extends-refl s.table,
  Onward-refl v.here,
)
extension-Keeps (some Lne.set_address) opcode s v = bind-Gives (Keeps s) (address s.cur) _ λ a e.
    let (f, small) = address-Forward s.cur {v = a.0} {c' = a.1} v.image e in
    ok-Gives (Keeps s) _ (
      with_regs s _ a.1 v (Forward-Onward f)
        (let w = v.regs in let o = v.operations in omega arith))
extension-Keeps (some Lne.define_file) opcode s v =
    bind-Gives (Keeps s) (read_file_entry s.table false s.cur) _ λ a e.
      let (x, f) = read_file_entry-Reads s.table false s.cur v.here v.image.addressable a e in
      let onward = Forward-Onward f in
      let ready = moved s a.2 v onward in
      let wider = λ (r : Row) (w : IsRow s.table.maximum_operations r).
        subst (λ n. IsRow n r) (sym x.maximum_operations) w in
      ok-Gives (Keeps s) _ (
        record {
          operations = subst (λ n. 0 < n) (sym x.maximum_operations) v.operations;
          regs = wider s.regs v.regs;
          entry = wider s.entry v.entry;
          image = ready.image;
          here = ready.here;
        },
        x,
        onward,
      )
extension-Keeps (some Lne.set_discriminator) opcode s v =
    read_field s (λ n. record (s.regs) { discriminator = n }) v λ n. let w = v.regs in omega arith
extension-Keeps (some Lne.lo_user) opcode s v = λ r e. absurd (cc)
extension-Keeps none opcode s v = λ r e. absurd (cc)

-- From a cursor that has moved on, the whole step moved on.
abbrev pub Advances : State → State × Bool → Type 0
Advances s r = IsReady r.0 × Extends s.table r.0.table × Forward s.cur r.0.cur

Forward-then_Onward : {a b c : Cursor} → Forward a b → Onward b c → Forward a c
Forward-then_Onward f g = record {
  same_section = g.same_section ∙ f.same_section;
  later = omega (arith, f.later, g.later);
  inside = omega (arith, f.inside, g.inside, ap (λ (t : Section). t.end) f.same_section);
}

extended-Advances : (s : State) → IsReady s → Gives (Advances s) (step_extended s)
unfolding step_extended
extended-Advances s v = bind-Gives _ (uleb128 s.cur) _ λ a1 e1.
    bind-Gives _ (fixed 1 a1.1) _ λ a2 e2.
      let f1 = (uleb128-Forward s.cur {v = a1.0} {c' = a1.1} e1).0 in
      let image1 = subst InImage (sym f1.same_section) v.image in
      let f2 =
        (fixed-Forward 1 a1.1 {v = a2.0} {c' = a2.1} image1 (omega arith) (omega arith) e2).0 in
      let f = Forward-trans f1 f2 in
      let v2 = moved s a2.1 v (Forward-Onward f) in
      bind-Gives _ (step_extension (lne_of a2.0) a2.0 (record s { cur = a2.1 })) _ λ s' e3.
        let (ready, x, g) = extension-Keeps (lne_of a2.0) a2.0 (record s { cur = a2.1 }) v2 s' e3 in
        bind-Gives _
          (guard (leb (get_section_offset s'.cur) (add64 (get_section_offset a1.1) a1.0)) _) _
          λ u e4. ok-Gives (Advances s) _ (ready, x, Forward-then_Onward f g)

pub step-IsReady : (s : State) (r : State × Bool) → IsReady s → step s ≡ ok r → Advances s r
unfolding step
step-IsReady s r v e = steps r e
  where
    steps : Gives (Advances s) (step s)
    steps = bind-Gives _ (fixed 1 s.cur) _ λ a1 e1.
        let f =
          (fixed-Forward 1 s.cur {v = a1.0} {c' = a1.1} v.image (omega arith) (omega arith) e1).0 in
        let v1 = moved s a1.1 v (Forward-Onward f) in
        let s1 = record s { cur = a1.1 } in
        let (ready, x, g) = special-Keeps a1.0 s1 v1 in
        if-Gives _ (leb s.table.opcode_base a1.0) _ _
          (ok-Gives (Advances s) _ (ready, x, Forward-then_Onward f g))
          (if-Gives _ (a1.0 == 0) _ _
            (λ r' e'.
              let (ready, x, g) = extended-Advances s1 v1 r' e' in (ready, x, Forward-trans f g))
            (bind-Gives _ (step_standard (lns_of a1.0) a1.0 s1) _ λ s' e'.
              let (ready, x, g) = standard-Keeps (lns_of a1.0) a1.0 s1 v1 s' e' in
              ok-Gives (Advances s) _ (ready, x, Forward-then_Onward f g)))
