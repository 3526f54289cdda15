-- ===== src/Dwarf/Line/Iterator/Overrun.antt =====
-- dwarf/line.cc: a table whose header length points past its end. `begin` then stands behind `end`,
-- where `++` does nothing.
use libelfin.Prelude.{ℕ, zero, suc, ◌+◌, ◌-◌, ◌≤◌, ◌<◌, ◌≡◌, refl, false, arith, ◌==◌, le→leb}
use libelfin.Result.{ok, err, out_of_fuel}
use libelfin.Word.{u64_mod, add64, sub64}
use libelfin.Dwarf.Section.{size}
use libelfin.Dwarf.Line.{Table, reset}
use libelfin.Dwarf.Line.Iterator.{
  LineIterator, run_steps, next_row, iterator_at, begin_rows, end_rows, visit_from, visit_rows,
}

-- At and behind the end, `++` leaves the iterator as it is.
next_row_at_end :
    (fuel : ℕ) (t : Table) (it : LineIterator)
    → t.sec.end ≤ t.sec.begin + it.pos
    → t.sec.begin + it.pos < u64_mod
    → next_row (suc fuel) t it ≡ ok (it, t)
unfolding next_row run_steps
next_row_at_end fuel t it past space =
    let here : add64 t.sec.begin it.pos ≡ t.sec.begin + it.pos = omega arith in
    let back : sub64 (t.sec.begin + it.pos) t.sec.begin ≡ it.pos = omega arith in
    rw (here, le→leb t.sec.end (t.sec.begin + it.pos) past, back)

visit_stays :
    (rounds fuel : ℕ) (it e : LineIterator) (t : Table)
    → t.sec.end ≤ t.sec.begin + it.pos
    → t.sec.begin + it.pos < u64_mod
    → (it.pos == e.pos) ≡ false
    → visit_from rounds (suc fuel) it e t ≡ err out_of_fuel
unfolding visit_from
visit_stays zero fuel it e t past space other = refl
visit_stays (suc rounds) fuel it e t past space other =
    rw (other, next_row_at_end fuel t it past space)
      (visit_stays rounds fuel it e t past space other)

-- If the program offset of the header points past the end of the table, and no pointer to it wraps,
-- the loop over all rows does
-- not end: no number of rounds is enough.
pub visit_rows_runs_on :
    (rounds fuel : ℕ) (t : Table)
    → t.sec.begin ≤ t.sec.end
    → t.sec.end < t.sec.begin + t.program_offset
    → t.sec.begin + t.program_offset < u64_mod
    → visit_rows rounds (suc fuel) t ≡ err out_of_fuel
unfolding visit_rows begin_rows end_rows iterator_at size
visit_rows_runs_on rounds fuel t ordered past space =
    let whole : sub64 t.sec.end t.sec.begin ≡ t.sec.end - t.sec.begin = omega arith in
    let first : LineIterator = record {
      pos = t.program_offset;
      entry = reset t.default_is_stmt;
      regs = reset t.default_is_stmt;
    } in
    let last : LineIterator = record {
      pos = t.sec.end - t.sec.begin;
      entry = reset t.default_is_stmt;
      regs = reset t.default_is_stmt;
    } in
    let other : (t.program_offset == t.sec.end - t.sec.begin) ≡ false = ground arith in
    rw
      (
        next_row_at_end fuel t first (omega arith) space,
        whole,
        next_row_at_end fuel t last (omega arith) (omega arith),
      )
      (visit_stays rounds fuel first last t (omega arith) space other)
