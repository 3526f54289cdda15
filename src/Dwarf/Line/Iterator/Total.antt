-- ===== src/Dwarf/Line/Iterator/Total.antt =====
-- dwarf/line.cc: the iterator returns, and moves on until the end of the table.
use mathlib.Core.Path.{subst}
use libelfin.Prelude.{
  ℕ, zero, suc, ◌+◌, ◌-◌, ◌≤◌, ◌<◌, ◌≡◌, refl, sym, ap, ◌∙◌, inl, inr, Bool, true, false, not, ◌&&◌,
  arith, ltb, if◌then◌else◌, length, Bool-cases, leb→le,
}
use libelfin.Result.{
  ok, format_error, unexpected_line_end, guard, Ends, ok-Ends, bind-Ends, Gives, ok-Gives,
  bind-Gives, if-Gives,
}
use libelfin.Dwarf.Section.{Section}
use libelfin.Dwarf.Cursor.{cursor_at, at_end, get_section_offset}
use libelfin.Dwarf.Cursor.Image.{InImage}
use libelfin.Dwarf.Cursor.Ends.{guard-Ends, if-Ends}
use libelfin.Dwarf.Cursor.Progress.{Onward, Onward-refl, Onward-trans, Forward-Onward}
use libelfin.Dwarf.Line.{Row, Table}
use libelfin.Dwarf.Line.Files.{Extends, Extends-refl, Extends-trans}
use libelfin.Dwarf.Line.Program.{State, step}
use libelfin.Dwarf.Line.Program.Ends.{step-Ends}
use libelfin.Dwarf.Line.Program.Rows.{step-IsReady}
use libelfin.Dwarf.Line.Program.Ready.{IsRow, IsReady}
use libelfin.Dwarf.Line.Iterator.{LineIterator, run_steps, resolve_file, note_complete, next_row}

run_steps-Ends :
    (fuel : ℕ) (s : State) (b : Bool)
    → IsReady s
    → s.cur.sec.end - s.cur.pos < fuel
    → Ends (run_steps fuel s b)
unfolding run_steps
run_steps-Ends zero s b v h = absurd (omega arith)
run_steps-Ends (suc fuel) s b v h = if-Ends (at_end s.cur) _ _ (ok-Ends _) (
    bind-Ends (step s) _ (step-Ends s) λ r e.
      let (ready, x, f) = step-IsReady s r v e in
      if-Ends r.1 _ _ (ok-Ends _) (
        run_steps-Ends fuel r.0 true ready
          (omega (arith, f.later, f.inside, ap (λ (t : Section). t.end) f.same_section))))

-- The state behind the steps; the cursor has moved if it was not at the end.
abbrev Ran : State → State × Bool × Bool → Type 0
Ran s r =
    IsReady r.0
    × Extends s.table r.0.table
    × Onward s.cur r.0.cur
    × (s.cur.pos < s.cur.sec.end → s.cur.pos < r.0.cur.pos)

run_steps-Ran : (fuel : ℕ) (s : State) (b : Bool) → IsReady s → Gives (Ran s) (run_steps fuel s b)
unfolding run_steps
run_steps-Ran zero s b v = λ r e. absurd (cc)
run_steps-Ran (suc fuel) s b v = elim (Bool-cases (at_end s.cur)) [
  | inl stop ↦ rw stop (
      ok-Gives (Ran s) _
        (v, Extends-refl s.table, Onward-refl v.here, λ h. absurd (omega (arith, leb→le _ _ stop))))
  | inr go ↦ rw go (
      bind-Gives (Ran s) (step s) _ λ r e.
        let (ready, x, f) = step-IsReady s r v e in
        if-Gives (Ran s) r.1 _ _ (ok-Gives (Ran s) _ (ready, x, Forward-Onward f, λ h. f.later))
          (λ r' e'.
            let (ready', x', f', _) = run_steps-Ran fuel r.0 true ready r' e' in
            (
              ready',
              Extends-trans s.table r.0.table r'.0.table x x',
              Onward-trans (Forward-Onward f) f',
              λ h. omega (arith, f.later, f'.later),
            )))
]

-- An iterator on a table over the section `s`.
pub record OnTable (s : Section) (t : Table) (it : LineIterator) : Type 0 where
  pub sec : t.sec ≡ s
  pub operations : 0 < t.maximum_operations
  pub regs : IsRow t.maximum_operations it.regs
  pub entry : IsRow t.maximum_operations it.entry
  pub inside : s.begin + it.pos ≤ s.end

note_complete-Extends : (b : Bool) (t : Table) → Extends t (note_complete b t)
note_complete-Extends true t =
    let x = Extends-refl t in
    record {
      sec = refl;
      program_offset = refl;
      minimum_instruction_length = refl;
      maximum_operations = refl;
      line_base = refl;
      line_range = refl;
      opcode_base = refl;
      default_is_stmt = refl;
      standard_opcode_lengths = refl;
      include_directories = refl;
      added = x.added;
      last_file_name_end = x.last_file_name_end;
    }
note_complete-Extends false t = Extends-refl t

resolve_file-IsRow : (n : ℕ) (t : Table) (r : Row) → IsRow n r → Gives (IsRow n) (resolve_file t r)
resolve_file-IsRow n t r v =
    if-Gives _ (ltb r.file_index (length t.file_names)) _ _ (ok-Gives _ _ (omega arith))
      (λ x e. absurd (cc))

module _ (s : Section) (img : InImage s) where
  -- The state in which `++` starts.
  started :
      (t : Table) (it : LineIterator)
      → OnTable s t it
      → IsReady
          (record { table = t; entry = it.entry; regs = it.regs; cur = cursor_at t.sec it.pos })
  started t it v =
      let start = ap (λ (x : Section). x.begin) v.sec in
      let stop = ap (λ (x : Section). x.end) v.sec in
      let space = img.addressable in
      record {
        operations = v.operations;
        regs = v.regs;
        entry = v.entry;
        image = subst InImage (sym v.sec) img;
        here = let inside = v.inside in omega arith;
      }

  pub next_row-Ends :
      (fuel : ℕ) (t : Table) (it : LineIterator)
      → OnTable s t it
      → s.end - s.begin < fuel
      → Ends (next_row fuel t it)
  unfolding next_row
  next_row-Ends fuel t it v h =
      let s0 : State = record {
        table = t;
        entry = it.entry;
        regs = it.regs;
        cur = cursor_at t.sec it.pos;
      } in
      let start = ap (λ (x : Section). x.begin) v.sec in
      let stop = ap (λ (x : Section). x.end) v.sec in
      let space = img.addressable in
      let inside = v.inside in
      bind-Ends (run_steps fuel s0 false) _
        (run_steps-Ends fuel s0 false (started t it v) (omega arith))
        λ r e.
          bind-Ends (guard (not (r.1 && not r.2)) (format_error unexpected_line_end)) _
            (guard-Ends (not (r.1 && not r.2)) _ (λ p. cc))
            λ u e'.
              bind-Ends
                (if r.2
                  then resolve_file (note_complete (r.1 && at_end r.0.cur) r.0.table) r.0.entry
                  else ok r.0.entry)
                _
                (if-Ends r.2 _ _
                  (if-Ends
                    (ltb r.0.entry.file_index
                      (length (note_complete (r.1 && at_end r.0.cur) r.0.table).file_names))
                    _ _ (ok-Ends _) (λ e. cc))
                  (ok-Ends _))
                λ x e''. ok-Ends _

  -- The iterator behind `++`.
  abbrev pub Stepped : Table → LineIterator → LineIterator × Table → Type 0
  Stepped t it r =
      OnTable s r.1 r.0
      × Extends t r.1
      × (it.pos ≤ r.0.pos)
      × (s.begin + it.pos < s.end → it.pos < r.0.pos)

  stepped :
      (t t' : Table) (it : LineIterator) (r : State) (x : Row)
      → OnTable s t it
      → IsReady r
      → Extends t t'
      → Onward (cursor_at t.sec it.pos) r.cur
      → (s.begin + it.pos < s.end → s.begin + it.pos < r.cur.pos)
      → t'.maximum_operations ≡ r.table.maximum_operations
      → IsRow t'.maximum_operations x
      → Stepped t it (record { pos = get_section_offset r.cur; entry = x; regs = r.regs }, t')
  stepped t t' it r x v ready grown f moves same row =
      let here : r.cur.sec ≡ s = f.same_section ∙ v.sec in
      let start = ap (λ (y : Section). y.begin) here in
      let stop = ap (λ (y : Section). y.end) v.sec in
      let start0 = ap (λ (y : Section). y.begin) v.sec in
      let space = img.addressable in
      let from = v.inside in
      let inside = f.inside in
      let later = f.later in
      let ops = v.operations in
      let pos : get_section_offset r.cur ≡ r.cur.pos - s.begin = omega arith in
      (
        record {
          sec = grown.sec ∙ v.sec;
          operations = subst (λ n. 0 < n) (sym grown.maximum_operations) ops;
          regs = subst (λ n. IsRow n r.regs) (sym same) ready.regs;
          entry = row;
          inside = omega arith;
        },
        grown,
        omega arith,
        λ h. let m = moves h in omega arith,
      )

  pub next_row-Stepped :
      (fuel : ℕ) (t : Table) (it : LineIterator)
      → OnTable s t it
      → Gives (Stepped t it) (next_row fuel t it)
  unfolding next_row
  next_row-Stepped fuel t it v =
      let s0 : State = record {
        table = t;
        entry = it.entry;
        regs = it.regs;
        cur = cursor_at t.sec it.pos;
      } in
      let start = ap (λ (x : Section). x.begin) v.sec in
      let stop = ap (λ (x : Section). x.end) v.sec in
      let space = img.addressable in
      let inside = v.inside in
      bind-Gives _ (run_steps fuel s0 false) _ λ r e.
        let (ready, x, f, moves) = run_steps-Ran fuel s0 false (started t it v) r e in
        bind-Gives _ (guard (not (r.1 && not r.2)) (format_error unexpected_line_end)) _ λ u e'.
          let t' = note_complete (r.1 && at_end r.0.cur) r.0.table in
          let x' = note_complete-Extends (r.1 && at_end r.0.cur) r.0.table in
          let same = x'.maximum_operations in
          let row : Gives (IsRow t'.maximum_operations)
              (if r.2 then resolve_file t' r.0.entry else ok r.0.entry) =
            let old = subst (λ n. IsRow n r.0.entry) (sym same) ready.entry in
            if-Gives _ r.2 _ _ (resolve_file-IsRow t'.maximum_operations t' r.0.entry old)
              (ok-Gives _ _ old) in
          bind-Gives _ (if r.2 then resolve_file t' r.0.entry else ok r.0.entry) _ λ y e''.
            ok-Gives (Stepped t it) _ (
              stepped t t' it r.0 y v ready (Extends-trans t r.0.table t' x x') f
                (λ h. let m = moves (omega arith) in omega arith) same (row y e''))
