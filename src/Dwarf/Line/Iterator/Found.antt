-- ===== src/Dwarf/Line/Iterator/Found.antt =====
-- dwarf/line.cc: what `find_address` answers with.
use libelfin.Prelude.{
  ℕ, zero, suc, ◌≤◌, ◌<◌, ◌≡◌, ◌≢◌, refl, ◌⊎◌, inl, inr, false, not, ◌&&◌, arith, ltb, leb, ◌==◌,
  Bool-cases,
}
use libelfin.Result.{ok, Gives, ok-Gives, bind-Gives}
use libelfin.Dwarf.Line.{Table}
use libelfin.Dwarf.Line.Iterator.{
  LineIterator, next_row, begin_rows, end_rows, find_from, find_address,
}

-- The row before `it` holds the address, and `it` is not the last row of the table.
pub record Holding (fuel addr : ℕ) (last : LineIterator) (r : LineIterator × Table) : Type 0 where
  pub earlier : Table
  pub it : LineIterator
  pub follows : next_row fuel earlier r.0 ≡ ok (it, r.1)
  pub low : r.0.entry.address ≤ addr
  pub high : addr < it.entry.address
  pub open_row : r.0.entry.end_sequence ≡ false
  pub not_last : it.pos ≢ last.pos

abbrev pub Answers : ℕ → ℕ → LineIterator → LineIterator × Table → Type 0
Answers fuel addr last r = (r.0.pos ≡ last.pos) ⊎ Holding fuel addr last r

find_from-Answers :
    (rounds fuel : ℕ) (prev it last : LineIterator) (t0 t : Table) (addr : ℕ)
    → next_row fuel t0 prev ≡ ok (it, t)
    → Gives (Answers fuel addr last) (find_from rounds fuel prev it last t addr)
unfolding find_from
find_from-Answers zero fuel prev it last t0 t addr e = λ r e'. absurd (cc)
find_from-Answers (suc rounds) fuel prev it last t0 t addr e =
    let A = Answers fuel addr last in
    let holds =
      leb prev.entry.address addr && (ltb addr it.entry.address && not prev.entry.end_sequence) in
    elim (Bool-cases (it.pos == last.pos)) [
      | inl stop ↦ rw stop (ok-Gives A _ (inl refl))
      | inr go ↦ rw go (elim (Bool-cases holds) [
        | inl yes_ ↦ rw yes_ (
            ok-Gives A _ (
              inr (record {
                earlier = t0;
                it = it;
                follows = e;
                low = ground (arith, yes_);
                high = ground (arith, yes_);
                open_row = ground (arith, yes_);
                not_last = ground (arith, go);
              })))
        | inr no_ ↦ rw no_ (
            bind-Gives A (next_row fuel t it) _
              λ r e'. find_from-Answers rounds fuel it r.0 last t r.1 addr e')
      ])
    ]

-- `find_address` answers with the end of the table, or with a row that is no end of a sequence,
-- whose address is at most the one asked for, and behind which a row with a greater address
-- follows. That next row is never the last one of the table: behind it the iterator already equals
-- `end()`, so the last range of the table is not found.
pub find_address-Answers :
    (rounds fuel : ℕ) (t t1 t2 : Table) (addr : ℕ) (first last : LineIterator)
    (r : LineIterator × Table)
    → begin_rows fuel t ≡ ok (first, t1)
    → end_rows fuel t1 ≡ ok (last, t2)
    → find_address rounds fuel t addr ≡ ok r
    → Answers fuel addr last r
unfolding find_address
find_address-Answers rounds fuel t t1 t2 addr first last r e1 e2 e = answers r e
  where
    answers : Gives (Answers fuel addr last) (find_address rounds fuel t addr)
    answers =
        let A = Answers fuel addr last in
        rw (e1, e2)
          (elim (Bool-cases (first.pos == last.pos)) [
            | inl same ↦ rw same (ok-Gives A _ (inl (ground (arith, same))))
            | inr other ↦ rw other (
                bind-Gives A (next_row fuel t2 first) _
                  λ n e3. find_from-Answers rounds fuel first n.0 last t2 n.1 addr e3)
          ])
