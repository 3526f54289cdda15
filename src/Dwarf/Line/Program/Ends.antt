-- ===== src/Dwarf/Line/Program/Ends.antt =====
-- dwarf/line.cc: `step` returns on every state.
use libelfin.Prelude.{ℕ, false, Option, none, some, leb, ◌==◌}
use libelfin.Result.{
  Result, ok, format_error, extended_exceeds, guard, ◌>>=◌, Ends, ok-Ends, bind-Ends,
}
use libelfin.Word.{add64, sign_extend}
use libelfin.Dwarf.Cursor.{Cursor, get_section_offset, fixed, uleb128, sleb128, address}
use libelfin.Dwarf.Cursor.Ends.{
  guard-Ends, if-Ends, fixed-Ends, uleb128-Ends, sleb128-Ends, address-Ends,
}
use libelfin.Dwarf.Line.{read_file_entry}
use libelfin.Dwarf.Line.Files.{read_file_entry-Ends}
use libelfin.Dwarf.Line.Program.{
  Lns, Lne, State, lns_of, lne_of, overflows, advance_line_by, step_standard, step_extension,
  step_extended, step,
}

-- A read, then a state made of its value.
read-Ends :
    (r : Result (ℕ × Cursor)) (next : ℕ × Cursor → State) → Ends r → Ends (r >>= λ a. ok (next a))
read-Ends r next h = bind-Ends r _ h λ a e. ok-Ends _

standard-Ends : (o : Option Lns) (opcode : ℕ) (s : State) → Ends (step_standard o opcode s)
unfolding step_standard
standard-Ends (some Lns.advance_pc) opcode s = read-Ends (uleb128 s.cur) _ (uleb128-Ends s.cur)
standard-Ends (some Lns.advance_line) opcode s =
    bind-Ends (sleb128 s.cur) _ (sleb128-Ends s.cur) λ a e.
      bind-Ends (advance_line_by a.0 s.regs) _
        (if-Ends (overflows (sign_extend 0x8000_0000 s.regs.line) a.0) _ _ (λ e. cc) (ok-Ends _))
        λ r e'. ok-Ends _
standard-Ends (some Lns.set_file) opcode s = read-Ends (uleb128 s.cur) _ (uleb128-Ends s.cur)
standard-Ends (some Lns.set_column) opcode s = read-Ends (uleb128 s.cur) _ (uleb128-Ends s.cur)
standard-Ends (some Lns.set_isa) opcode s = read-Ends (uleb128 s.cur) _ (uleb128-Ends s.cur)
standard-Ends (some Lns.fixed_advance_pc) opcode s =
    read-Ends (fixed 2 s.cur) _ (fixed-Ends 2 s.cur)
standard-Ends none opcode s = λ e. cc
standard-Ends (some _) opcode s = ok-Ends _

extension-Ends : (o : Option Lne) (opcode : ℕ) (s : State) → Ends (step_extension o opcode s)
unfolding step_extension
extension-Ends (some Lne.end_sequence) opcode s = ok-Ends _
extension-Ends (some Lne.set_address) opcode s = read-Ends (address s.cur) _ (address-Ends s.cur)
extension-Ends (some Lne.define_file) opcode s =
    bind-Ends (read_file_entry s.table false s.cur) _ (read_file_entry-Ends s.table false s.cur)
      λ a e. ok-Ends _
extension-Ends (some Lne.set_discriminator) opcode s =
    read-Ends (uleb128 s.cur) _ (uleb128-Ends s.cur)
extension-Ends (some Lne.lo_user) opcode s = λ e. cc
extension-Ends none opcode s = λ e. cc

extended-Ends : (s : State) → Ends (step_extended s)
unfolding step_extended
extended-Ends s = bind-Ends (uleb128 s.cur) _ (uleb128-Ends s.cur) λ a1 e1.
    bind-Ends (fixed 1 a1.1) _ (fixed-Ends 1 a1.1) λ a2 e2.
      bind-Ends (step_extension (lne_of a2.0) a2.0 (record s { cur = a2.1 })) _
        (extension-Ends (lne_of a2.0) a2.0 (record s { cur = a2.1 }))
        λ s' e3.
          bind-Ends
            (guard (leb (get_section_offset s'.cur) (add64 (get_section_offset a1.1) a1.0)) _) _
            (guard-Ends (leb (get_section_offset s'.cur) (add64 (get_section_offset a1.1) a1.0))
              (format_error extended_exceeds) (λ p. cc))
            λ u e4. ok-Ends _

pub step-Ends : (s : State) → Ends (step s)
unfolding step
step-Ends s = bind-Ends (fixed 1 s.cur) _ (fixed-Ends 1 s.cur) λ a e.
    let s1 = record s { cur = a.1 } in
    if-Ends (leb s.table.opcode_base a.0) _ _ (ok-Ends _) (
      if-Ends (a.0 == 0) _ _ (extended-Ends s1) (
        bind-Ends (step_standard (lns_of a.0) a.0 s1) _ (standard-Ends (lns_of a.0) a.0 s1)
          λ s' e'. ok-Ends _))
