-- ===== src/Dwarf/Line/Iterator.antt =====
-- dwarf/line.cc: `iterator::operator++`, `begin`, `end`, `find_address` and `get_file`.
pub mod Total
pub mod Search
pub mod Found
pub mod Overrun
use libelfin.Prelude.{
  ℕ, zero, suc, Bool, true, false, not, ◌&&◌, some, ltb, leb, ◌==◌, if◌then◌else◌, length,
}
use libelfin.Result.{
  Result, ok, err, out_of_fuel, format_error, out_of_range, unexpected_line_end, bad_file_index,
  missing_file_index, guard, ◌>>=◌, ◌>>◌,
}
use libelfin.Dwarf.Section.{size}
use libelfin.Dwarf.Cursor.{cursor_at, at_end, get_section_offset}
use libelfin.Dwarf.Line.{Row, Table, reset}
use libelfin.Dwarf.Line.Program.{State, step}

-- `line_table::iterator` on a table that is there.
pub record LineIterator : Type 0 where
  pub pos : ℕ
  pub entry : Row
  pub regs : Row

-- `while (!cur.end() && !output)`: the state, `stepped` and `output`.
unfoldable pub run_steps : ℕ → State → Bool → Result (State × Bool × Bool)
run_steps zero s stepped = err out_of_fuel
run_steps (suc fuel) s stepped =
    let further = (do
      (s', output) ← step s
      let rest = run_steps fuel s' true
      if output then ok (s', true, true) else rest) in
    if at_end s.cur then ok (s, stepped, false) else further

-- The file of a row.
abbrev pub resolve_file : Table → Row → Result Row
resolve_file t r =
    if ltb r.file_index (length t.file_names)
    then ok (record r { file = some r.file_index })
    else err (format_error (bad_file_index r.file_index))

abbrev pub note_complete : Bool → Table → Table
note_complete last t = if last then record t { file_names_complete = true } else t

-- `operator++`: the iterator and the table that it shares.
unfoldable pub next_row : ℕ → Table → LineIterator → Result (LineIterator × Table)
next_row fuel t it = do
  (s, stepped, output) ←
      run_steps fuel
        (record { table = t; entry = it.entry; regs = it.regs; cur = cursor_at t.sec it.pos }) false
  guard (not (stepped && not output)) (format_error unexpected_line_end)
  let t' = note_complete (stepped && at_end s.cur) s.table
  entry ← (if output then resolve_file t' s.entry else ok s.entry)
  ok (record { pos = get_section_offset s.cur; entry = entry; regs = s.regs }, t')

-- `iterator(table, pos)`. The code leaves the entry unset, and nothing reads it before a row is out;
-- here it is the row of the first registers.
unfoldable pub iterator_at : ℕ → Table → ℕ → Result (LineIterator × Table)
iterator_at fuel t pos =
    next_row fuel t
      (record { pos = pos; entry = reset t.default_is_stmt; regs = reset t.default_is_stmt })

-- `begin` and `end` of a table that is there.
unfoldable pub begin_rows : ℕ → Table → Result (LineIterator × Table)
begin_rows fuel t = iterator_at fuel t t.program_offset

unfoldable pub end_rows : ℕ → Table → Result (LineIterator × Table)
end_rows fuel t = iterator_at fuel t (size t.sec)

-- `for (++it; it != e; prev = it++)` behind `++it`.
unfoldable pub find_from :
    ℕ → ℕ → LineIterator → LineIterator → LineIterator → Table → ℕ → Result (LineIterator × Table)
find_from zero fuel prev it e t addr = err out_of_fuel
find_from (suc rounds) fuel prev it e t addr =
    let further = (do (it', t') ← next_row fuel t it; find_from rounds fuel it it' e t' addr) in
    if it.pos == e.pos
    then ok (e, t)
    else if leb prev.entry.address addr
        && (ltb addr it.entry.address && not prev.entry.end_sequence)
    then ok (prev, t)
    else further

-- `line_table::find_address`
unfoldable pub find_address : ℕ → ℕ → Table → ℕ → Result (LineIterator × Table)
find_address rounds fuel t addr = do
  (prev, t1) ← begin_rows fuel t
  (e, t2) ← end_rows fuel t1
  if prev.pos == e.pos
      then ok (prev, t2)
      else (do (it, t3) ← next_row fuel t2 prev; find_from rounds fuel prev it e t3 addr)

-- `for (auto &ent : *this) (void)ent;`
unfoldable pub visit_from : ℕ → ℕ → LineIterator → LineIterator → Table → Result Table
visit_from zero fuel it e t = err out_of_fuel
visit_from (suc rounds) fuel it e t =
    let further = (do (it', t') ← next_row fuel t it; visit_from rounds fuel it' e t') in
    if it.pos == e.pos then ok t else further

unfoldable pub visit_rows : ℕ → ℕ → Table → Result Table
visit_rows rounds fuel t = do
  (it, t1) ← begin_rows fuel t
  (e, t2) ← end_rows fuel t1
  visit_from rounds fuel it e t2

-- `line_table::get_file`: the index into the table's files.
unfoldable pub get_file : ℕ → ℕ → Table → ℕ → Result (ℕ × Table)
get_file rounds fuel t index = if ltb index (length t.file_names) then ok (index, t) else (do
  t' ← (if t.file_names_complete then ok t else visit_rows rounds fuel t)
  guard (ltb index (length t'.file_names)) (out_of_range (missing_file_index index))
  ok (index, t'))
