-- ===== src/Dwarf/Line/Iterator/Search.antt =====
-- dwarf/line.cc: `find_address`, the loop over all rows, and `get_file` return if the header's
-- program offset lies in the table; past its end the loop goes on for ever.
use mathlib.Core.Path.{subst}
use libelfin.Prelude.{
  ℕ, zero, suc, ◌+◌, ◌-◌, ◌≤◌, ◌<◌, ◌≡◌, sym, ap, ◌∙◌, inl, inr, not, ◌&&◌, arith, ltb, leb, ◌==◌,
  if◌then◌else◌, length, Bool-cases,
}
use libelfin.Result.{ok, out_of_range, missing_file_index, guard, Ends, ok-Ends, bind-Ends, Gives}
use libelfin.Word.{sub64}
use libelfin.Dwarf.Section.{Section, size}
use libelfin.Dwarf.Cursor.Image.{InImage}
use libelfin.Dwarf.Cursor.Ends.{guard-Ends, if-Ends}
use libelfin.Dwarf.Line.{Table, reset}
use libelfin.Dwarf.Line.Files.{Extends}
use libelfin.Dwarf.Line.Program.Ready.{IsRow, reset-IsRow}
use libelfin.Dwarf.Line.Iterator.Total.{OnTable, next_row-Ends, next_row-Stepped}
use libelfin.Dwarf.Line.Iterator.{
  LineIterator, next_row, iterator_at, begin_rows, end_rows, find_from, find_address, visit_from,
  visit_rows, get_file,
}

-- A place of the table over `s` where an iterator can start.
abbrev pub Starts : Section → Table → ℕ → Type 0
Starts s t pos = (t.sec ≡ s) × (0 < t.maximum_operations) × (s.begin + pos ≤ s.end)

module _ (s : Section) (img : InImage s) where
  fresh-OnTable :
      (t : Table) (pos : ℕ)
      → Starts s t pos
      → OnTable s t
          (record { pos = pos; entry = reset t.default_is_stmt; regs = reset t.default_is_stmt })
  fresh-OnTable t pos h = record {
    sec = h.0;
    operations = h.1;
    regs = reset-IsRow t.maximum_operations t.default_is_stmt h.1;
    entry = reset-IsRow t.maximum_operations t.default_is_stmt h.1;
    inside = h.2;
  }

  module _ (fuel : ℕ) (enough : s.end - s.begin < fuel) where
    find_from-Ends :
        (rounds : ℕ) (prev it e : LineIterator) (t : Table) (addr : ℕ)
        → OnTable s t it
        → s.begin + e.pos ≡ s.end
        → s.end - (s.begin + it.pos) < rounds
        → Ends (find_from rounds fuel prev it e t addr)
    unfolding find_from
    find_from-Ends zero prev it e t addr v last h = absurd (omega arith)
    find_from-Ends (suc rounds) prev it e t addr v last h = elim (Bool-cases (it.pos == e.pos)) [
      | inl stop ↦ rw stop (ok-Ends _)
      | inr go ↦ rw go (
          if-Ends
            (leb prev.entry.address addr
              && (ltb addr it.entry.address && not prev.entry.end_sequence))
            _ _ (ok-Ends _)
            (bind-Ends (next_row fuel t it) _ (next_row-Ends s img fuel t it v enough) λ r eq.
              let (v', x, later, moves) = next_row-Stepped s img fuel t it v r eq in
              let inside = v.inside in
              let inside' = v'.inside in
              let m = moves (ground (arith, go)) in
              find_from-Ends rounds it r.0 e r.1 addr v' last (omega arith)))
    ]

    visit_from-Ends :
        (rounds : ℕ) (it e : LineIterator) (t : Table)
        → OnTable s t it
        → s.begin + e.pos ≡ s.end
        → s.end - (s.begin + it.pos) < rounds
        → Ends (visit_from rounds fuel it e t)
    unfolding visit_from
    visit_from-Ends zero it e t v last h = absurd (omega arith)
    visit_from-Ends (suc rounds) it e t v last h = elim (Bool-cases (it.pos == e.pos)) [
      | inl stop ↦ rw stop (ok-Ends _)
      | inr go ↦ rw go (
          bind-Ends (next_row fuel t it) _ (next_row-Ends s img fuel t it v enough) λ r eq.
            let (v', x, later, moves) = next_row-Stepped s img fuel t it v r eq in
            let inside = v.inside in
            let inside' = v'.inside in
            let m = moves (ground (arith, go)) in
            visit_from-Ends rounds r.0 e r.1 v' last (omega arith))
    ]

    -- `begin` and `end`: the first stands on the table, the second behind its last byte.
    begin_rows-Stepped :
        (t : Table)
        → Starts s t t.program_offset
        → Ends (begin_rows fuel t)
          × Gives (λ r. OnTable s r.1 r.0 × Extends t r.1) (begin_rows fuel t)
    unfolding begin_rows iterator_at
    begin_rows-Stepped t h = (
      next_row-Ends s img fuel t _ (fresh-OnTable t t.program_offset h) enough,
      λ r e.
          let (v, x, _, _) =
            next_row-Stepped s img fuel t _ (fresh-OnTable t t.program_offset h) r e in
          (v, x),
    )

    end_rows-Stepped :
        (t : Table)
        → t.sec ≡ s
        → 0 < t.maximum_operations
        → Ends (end_rows fuel t)
          × Gives
              (λ r. OnTable s r.1 r.0 × Extends t r.1 × (s.begin + r.0.pos ≡ s.end))
              (end_rows fuel t)
    unfolding end_rows iterator_at size
    end_rows-Stepped t same ops =
        let start = ap (λ (y : Section). y.begin) same in
        let stop = ap (λ (y : Section). y.end) same in
        let space = img.addressable in
        let ordered = img.ordered in
        let whole : sub64 t.sec.end t.sec.begin ≡ s.end - s.begin = omega arith in
        let fresh = fresh-OnTable t (sub64 t.sec.end t.sec.begin) (same, ops, omega arith) in
        (
          next_row-Ends s img fuel t _ fresh enough,
          λ r e.
              let (v, x, later, _) = next_row-Stepped s img fuel t _ fresh r e in
              let inside = v.inside in (v, x, omega arith),
        )

    on_later : (t t' : Table) (it : LineIterator) → OnTable s t it → Extends t t' → OnTable s t' it
    on_later t t' it v x = record {
      sec = x.sec ∙ v.sec;
      operations = subst (λ n. 0 < n) (sym x.maximum_operations) v.operations;
      regs = subst (λ n. IsRow n it.regs) (sym x.maximum_operations) v.regs;
      entry = subst (λ n. IsRow n it.entry) (sym x.maximum_operations) v.entry;
      inside = v.inside;
    }

    find_rows-Ends :
        (rounds : ℕ) (t : Table) (addr : ℕ)
        → Starts s t t.program_offset
        → s.end - s.begin < rounds
        → Ends (find_address rounds fuel t addr)
    unfolding find_address
    find_rows-Ends rounds t addr h more =
        let (ends, gives) = begin_rows-Stepped t h in
        bind-Ends (begin_rows fuel t) _ ends λ r e.
          let (v, x) = gives r e in
          let (ends', gives') = end_rows-Stepped r.1 v.sec v.operations in
          bind-Ends (end_rows fuel r.1) _ ends' λ r' e'.
            let (v', x', last) = gives' r' e' in
            let w = on_later r.1 r'.1 r.0 v x' in
            if-Ends (r.0.pos == r'.0.pos) _ _ (ok-Ends _) (
              bind-Ends (next_row fuel r'.1 r.0) _ (next_row-Ends s img fuel r'.1 r.0 w enough)
                λ n e''.
                  let (u, _, _, _) = next_row-Stepped s img fuel r'.1 r.0 w n e'' in
                  find_from-Ends rounds r.0 n.0 r'.0 n.1 addr u last (omega arith))

    all_rows-Ends :
        (rounds : ℕ) (t : Table)
        → Starts s t t.program_offset
        → s.end - s.begin < rounds
        → Ends (visit_rows rounds fuel t)
    unfolding visit_rows
    all_rows-Ends rounds t h more =
        let (ends, gives) = begin_rows-Stepped t h in
        bind-Ends (begin_rows fuel t) _ ends λ r e.
          let (v, x) = gives r e in
          let (ends', gives') = end_rows-Stepped r.1 v.sec v.operations in
          bind-Ends (end_rows fuel r.1) _ ends' λ r' e'.
            let (v', x', last) = gives' r' e' in
            visit_from-Ends rounds r.0 r'.0 r'.1 (on_later r.1 r'.1 r.0 v x') last (omega arith)

-- `find_address` and `get_file` return on every table over a section of the image that allows an
-- operation for an instruction and whose program offset lies in the section, with more rounds for each loop than the section has bytes.
pub find_address-Ends :
    (s : Section) (t : Table) (rounds fuel addr index : ℕ)
    → InImage s
    → Starts s t t.program_offset
    → s.end - s.begin < rounds
    → s.end - s.begin < fuel
    → Ends (find_address rounds fuel t addr) × Ends (get_file rounds fuel t index)
unfolding get_file
find_address-Ends s t rounds fuel addr index img h more enough = (
  find_rows-Ends s img fuel enough rounds t addr h more,
  if-Ends (ltb index (length t.file_names)) _ _ (ok-Ends _) (
      bind-Ends (if t.file_names_complete then ok t else visit_rows rounds fuel t) _
        (if-Ends t.file_names_complete _ _ (ok-Ends _)
          (all_rows-Ends s img fuel enough rounds t h more))
        λ t' e.
          bind-Ends (guard (ltb index (length t'.file_names)) _) _
            (guard-Ends (ltb index (length t'.file_names)) (out_of_range (missing_file_index index))
              (λ p. cc))
            λ u e'. ok-Ends _),
)
