-- ===== src/Dwarf/Line/Header/Total.antt =====
-- dwarf/line.cc: the constructor of `line_table` returns behind the version and on.
use mathlib.Core.Path.{subst}
use libelfin.Prelude.{
  ℕ, zero, suc, ◌+◌, ◌-◌, ◌≤◌, ◌<◌, sym, ap, true, not, ◌||◌, Option, some, none, List, arith, ltb,
  leb, ◌==◌, get_elem?,
}
use libelfin.Result.{
  format_error, bad_line_version, zero_maximum_operations, zero_line_range, bad_opcode_length,
  guard, Gives, ok-Gives, bind-Gives, if-Gives, Ends, ok-Ends, bind-Ends,
}
use libelfin.Dwarf.Section.{Section, Format, unknown, dwarf32, dwarf64}
use libelfin.Dwarf.Cursor
use libelfin.Dwarf.Cursor.{Cursor, fixed, fixed_signed, offset, offset_of_format}
use libelfin.Dwarf.Cursor.Image.{InImage}
use libelfin.Dwarf.Cursor.Ends.{
  fixed-Ends, fixed_signed-Ends, offset-Ends, string-Ends, guard-Ends, if-Ends,
}
use libelfin.Dwarf.Cursor.Progress.{
  Onward, Onward-refl, Onward-trans, Forward-Onward, fixed-Forward, fixed_signed-Forward,
  string-Forward,
}
use libelfin.Dwarf.Line.{Table, is_empty, read_file_entry}
use libelfin.Dwarf.Line.Files.{read_file_entry-Ends, read_file_entry-Reads}
use libelfin.Dwarf.Line.Header.{
  opcode_lengths, expected_length, read_opcode_lengths, read_lengths_table, read_directories,
  read_files, read_maximum_operations, read_header,
}

expected_length-Ends : (o : Option ℕ) → Ends (expected_length o)
expected_length-Ends none = λ e. cc
expected_length-Ends (some n) = ok-Ends n

read_opcode_lengths-Ends : (n i : ℕ) (c : Cursor) → Ends (read_opcode_lengths n i c)
unfolding read_opcode_lengths
read_opcode_lengths-Ends zero i c = ok-Ends _
read_opcode_lengths-Ends (suc n) i c = bind-Ends (fixed 1 c) _ (fixed-Ends 1 c) λ a e1.
    bind-Ends (expected_length (get_elem? opcode_lengths i)) _
      (expected_length-Ends (get_elem? opcode_lengths i))
      λ x e2.
        bind-Ends (guard (a.0 == x) _) _
          (guard-Ends (a.0 == x) (format_error (bad_opcode_length i)) (λ p. cc))
          λ u e3.
            bind-Ends (read_opcode_lengths n (i + 1) a.1) _ (read_opcode_lengths-Ends n (i + 1) a.1)
              λ r e4. ok-Ends _

lengths_table-Ends : (n : ℕ) (c : Cursor) → Ends (read_lengths_table n c)
unfolding read_lengths_table
lengths_table-Ends zero c = λ e. cc
lengths_table-Ends (suc n) c =
    bind-Ends (read_opcode_lengths n 1 c) _ (read_opcode_lengths-Ends n 1 c) λ r e. ok-Ends _

-- The cursors that the header's reads reach from `c0`.
module _ (c0 : Cursor) (img : InImage c0.sec) where
  image_at : (c : Cursor) → Onward c0 c → InImage c.sec
  image_at c o = subst InImage (sym o.same_section) img

  here_at : (c : Cursor) → Onward c0 c → c.pos ≤ c.sec.end
  here_at c o = omega (arith, o.inside, ap (λ (s : Section). s.end) o.same_section)

  left_at : (c : Cursor) → Onward c0 c → c.sec.end - c.pos ≤ c0.sec.end - c0.pos
  left_at c o = omega (arith, o.later, ap (λ (s : Section). s.end) o.same_section)

  abbrev Reaches {ℓ} : {A : Type ℓ} → A × Cursor → Type 0
  Reaches r = Onward c0 r.1

  fixed-Reaches : (n : ℕ) (c : Cursor) → 1 ≤ n → n ≤ 8 → Onward c0 c → Gives Reaches (fixed n c)
  fixed-Reaches n c lo hi o = λ r e.
      Onward-trans o
        (Forward-Onward (fixed-Forward n c {v = r.0} {c' = r.1} (image_at c o) lo hi e).0)

  signed-Reaches : (c : Cursor) → Onward c0 c → Gives Reaches (fixed_signed 1 c)
  signed-Reaches c o = λ r e. Onward-trans o (
      Forward-Onward (
        fixed_signed-Forward 1 c {v = r.0} {c' = r.1} (image_at c o) (omega arith) (omega arith) e))

  format-Reaches : (f : Format) (c : Cursor) → Onward c0 c → Gives Reaches (offset_of_format f c)
  format-Reaches dwarf32 c o = fixed-Reaches 4 c (omega arith) (omega arith) o
  format-Reaches dwarf64 c o = fixed-Reaches 8 c (omega arith) (omega arith) o
  format-Reaches unknown c o = λ r e. absurd (cc)

  offset-Reaches : (c : Cursor) → Onward c0 c → Gives Reaches (offset c)
  unfolding offset
  offset-Reaches c o = format-Reaches c.sec.fmt c o

  operations-Reaches :
      (version : ℕ) (c : Cursor) → Onward c0 c → Gives Reaches (read_maximum_operations version c)
  operations-Reaches version c o =
      if-Gives Reaches (leb 4 version) _ _ (fixed-Reaches 1 c (omega arith) (omega arith) o)
        (ok-Gives Reaches _ o)

  lengths-Reaches : (n i : ℕ) (c : Cursor) → Onward c0 c → Gives Reaches (read_opcode_lengths n i c)
  unfolding read_opcode_lengths
  lengths-Reaches zero i c o = ok-Gives Reaches _ o
  lengths-Reaches (suc n) i c o = bind-Gives Reaches (fixed 1 c) _ λ a e1.
      bind-Gives Reaches (expected_length (get_elem? opcode_lengths i)) _ λ x e2.
        bind-Gives Reaches (guard (a.0 == x) _) _ λ u e3.
          bind-Gives Reaches (read_opcode_lengths n (i + 1) a.1) _ λ r e4. ok-Gives Reaches _ (
            lengths-Reaches n (i + 1) a.1 (fixed-Reaches 1 c (omega arith) (omega arith) o a e1) r
              e4)

  table-Reaches : (n : ℕ) (c : Cursor) → Onward c0 c → Gives Reaches (read_lengths_table n c)
  unfolding read_lengths_table
  table-Reaches zero c o = λ r e. absurd (cc)
  table-Reaches (suc n) c o =
      bind-Gives Reaches (read_opcode_lengths n 1 c) _
        λ r e. ok-Gives Reaches _ (lengths-Reaches n 1 c o r e)

  directories-Reaches :
      (fuel : ℕ) (dir : List ℕ) (c : Cursor)
      → Onward c0 c
      → Gives Reaches (read_directories fuel dir c)
  unfolding read_directories
  directories-Reaches zero dir c o = λ r e. absurd (cc)
  directories-Reaches (suc fuel) dir c o = bind-Gives Reaches (Cursor.string c) _ λ a e.
      let f = string-Forward c (here_at c o) (image_at c o).addressable a e in
      let o' = Onward-trans o (Forward-Onward f) in
      if-Gives Reaches (is_empty a.0) _ _ (ok-Gives Reaches _ o') (
        bind-Gives Reaches (read_directories fuel dir a.1) _
          λ r e'. ok-Gives Reaches _ (directories-Reaches fuel dir a.1 o' r e'))

  directories-Ends :
      (fuel : ℕ) (dir : List ℕ) (c : Cursor)
      → Onward c0 c
      → c.sec.end - c.pos < fuel
      → Ends (read_directories fuel dir c)
  unfolding read_directories
  directories-Ends zero dir c o h = absurd (omega arith)
  directories-Ends (suc fuel) dir c o h = bind-Ends (Cursor.string c) _ (string-Ends c) λ a e.
      let f = string-Forward c (here_at c o) (image_at c o).addressable a e in
      let less : a.1.sec.end - a.1.pos < fuel =
        omega (arith, f.later, f.inside, ap (λ (s : Section). s.end) f.same_section) in
      if-Ends (is_empty a.0) _ _ (ok-Ends _) (
        bind-Ends (read_directories fuel dir a.1) _
          (directories-Ends fuel dir a.1 (Onward-trans o (Forward-Onward f)) less)
          λ r e'. ok-Ends _)

  files-Ends :
      (fuel : ℕ) (t : Table) (c : Cursor)
      → Onward c0 c
      → c.sec.end - c.pos < fuel
      → Ends (read_files fuel t c)
  unfolding read_files
  files-Ends zero t c o h = absurd (omega arith)
  files-Ends (suc fuel) t c o h =
      bind-Ends (read_file_entry t true c) _ (read_file_entry-Ends t true c) λ a e.
        let f = (read_file_entry-Reads t true c (here_at c o) (image_at c o).addressable a e).1 in
        let less : a.2.sec.end - a.2.pos < fuel =
          omega (arith, f.later, f.inside, ap (λ (s : Section). s.end) f.same_section) in
        if-Ends a.0 _ _ (files-Ends fuel a.1 a.2 (Onward-trans o (Forward-Onward f)) less)
          (ok-Ends _)

-- From a cursor inside a section of the image, the header of a line table is read with an outcome,
-- whatever it holds, with more rounds for its two lists than
-- bytes are left in the section.
pub read_header-Ends :
    (fuel : ℕ) (comp_dir cu_name : List ℕ) (c : Cursor)
    → InImage c.sec
    → c.pos ≤ c.sec.end
    → c.sec.end - c.pos < fuel
    → Ends (read_header fuel comp_dir cu_name c)
unfolding read_header
read_header-Ends fuel comp_dir cu_name c img here h =
    let few = λ (d : Cursor) (o : Onward c d). left_at c img d o in
    bind-Ends (fixed 2 c) _ (fixed-Ends 2 c) λ a1 e1.
      let o1 = fixed-Reaches c img 2 c (omega arith) (omega arith) (Onward-refl here) a1 e1 in
      bind-Ends (guard (not (ltb a1.0 2 || ltb 4 a1.0)) _) _
        (guard-Ends (not (ltb a1.0 2 || ltb 4 a1.0)) (format_error (bad_line_version a1.0))
          (λ p. cc))
        λ u1 g1. bind-Ends (offset a1.1) _ (offset-Ends a1.1) λ a2 e2.
          let o2 = offset-Reaches c img a1.1 o1 a2 e2 in
          bind-Ends (fixed 1 a2.1) _ (fixed-Ends 1 a2.1) λ a3 e3.
            let o3 = fixed-Reaches c img 1 a2.1 (omega arith) (omega arith) o2 a3 e3 in
            bind-Ends (read_maximum_operations a1.0 a3.1) _
              (if-Ends (leb 4 a1.0) _ _ (fixed-Ends 1 a3.1) (ok-Ends _))
              λ a4 e4.
                let o4 = operations-Reaches c img a1.0 a3.1 o3 a4 e4 in
                bind-Ends (guard (ltb 0 a4.0) _) _
                  (guard-Ends (ltb 0 a4.0) (format_error zero_maximum_operations) (λ p. cc))
                  λ u2 g2. bind-Ends (fixed 1 a4.1) _ (fixed-Ends 1 a4.1) λ a5 e5.
                    let o5 = fixed-Reaches c img 1 a4.1 (omega arith) (omega arith) o4 a5 e5 in
                    bind-Ends (fixed_signed 1 a5.1) _ (fixed_signed-Ends 1 a5.1) λ a6 e6.
                      let o6 = signed-Reaches c img a5.1 o5 a6 e6 in
                      bind-Ends (fixed 1 a6.1) _ (fixed-Ends 1 a6.1) λ a7 e7.
                        let o7 = fixed-Reaches c img 1 a6.1 (omega arith) (omega arith) o6 a7 e7 in
                        bind-Ends (guard (ltb 0 a7.0) _) _
                          (guard-Ends (ltb 0 a7.0) (format_error zero_line_range) (λ p. cc))
                          λ u3 g3. bind-Ends (fixed 1 a7.1) _ (fixed-Ends 1 a7.1) λ a8 e8.
                            let o8 =
                              fixed-Reaches c img 1 a7.1 (omega arith) (omega arith) o7 a8 e8 in
                            bind-Ends (read_lengths_table a8.0 a8.1) _
                              (lengths_table-Ends a8.0 a8.1)
                              λ a9 e9.
                                let o9 = table-Reaches c img a8.0 a8.1 o8 a9 e9 in
                                bind-Ends (read_directories fuel comp_dir a9.1) _
                                  (directories-Ends c img fuel comp_dir a9.1 o9
                                    (omega (arith, few a9.1 o9)))
                                  λ a10 e10.
                                    let o10 =
                                      directories-Reaches c img fuel comp_dir a9.1 o9 a10 e10 in
                                    bind-Ends (read_files fuel _ a10.1) _
                                      (files-Ends c img fuel _ a10.1 o10
                                        (omega (arith, few a10.1 o10)))
                                      λ a11 e11. ok-Ends _
