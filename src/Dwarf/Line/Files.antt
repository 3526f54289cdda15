-- ===== src/Dwarf/Line/Files.antt =====
-- dwarf/line.cc: `read_file_entry` moves forward, returns, and adds no entry twice.
use mathlib.Core.List.{append_assoc, append-nil}
use libelfin.Prelude.{
  ℕ, ◌≤◌, ◌<◌, ◌≡◌, refl, sym, ap, ◌∙◌, Bool, true, ◌&&◌, some, none, Option, List, [], ◌∷◌, ◌++◌,
  arith, leb, le→leb, leb→le, Bool-cases, inl, inr, get_elem?,
}
use libelfin.Result.{Result, ok, Ends, ok-Ends, bind-Ends, Gives, ok-Gives, bind-Gives, if-Gives}
use libelfin.Word.{u64_mod}
use libelfin.Dwarf.Section.{Section}
use libelfin.Dwarf.Cursor
use libelfin.Dwarf.Cursor.{Cursor, get_section_offset, uleb128}
use libelfin.Dwarf.Cursor.Ends.{uleb128-Ends, string-Ends, if-Ends}
use libelfin.Dwarf.Cursor.Progress.{Forward, uleb128-Forward, string-Forward}
use libelfin.Dwarf.Line.{
  FileEntry, Table, starts_with_slash, in_directory, file_path, push_file, is_empty,
  read_file_attributes, read_file_entry,
}

pub Forward-trans : {a b c : Cursor} → Forward a b → Forward b c → Forward a c
Forward-trans f g = record {
  same_section = g.same_section ∙ f.same_section;
  later = omega (arith, f.later, g.later);
  inside = omega (arith, f.inside, g.inside, ap (λ (s : Section). s.end) f.same_section);
}

-- The entries only grow, and the rest of the header stays.
pub record Extends (t t' : Table) : Type 0 where
  pub sec : t'.sec ≡ t.sec
  pub program_offset : t'.program_offset ≡ t.program_offset
  pub minimum_instruction_length : t'.minimum_instruction_length ≡ t.minimum_instruction_length
  pub maximum_operations : t'.maximum_operations ≡ t.maximum_operations
  pub line_base : t'.line_base ≡ t.line_base
  pub line_range : t'.line_range ≡ t.line_range
  pub opcode_base : t'.opcode_base ≡ t.opcode_base
  pub default_is_stmt : t'.default_is_stmt ≡ t.default_is_stmt
  pub standard_opcode_lengths : t'.standard_opcode_lengths ≡ t.standard_opcode_lengths
  pub include_directories : t'.include_directories ≡ t.include_directories
  pub added : (fs : List FileEntry) × (t'.file_names ≡ t.file_names ++ fs)
  pub last_file_name_end : t.last_file_name_end ≤ t'.last_file_name_end

pub Extends-refl : (t : Table) → Extends t t
Extends-refl t = record {
  sec = refl;
  program_offset = refl;
  minimum_instruction_length = refl;
  maximum_operations = refl;
  line_base = refl;
  line_range = refl;
  opcode_base = refl;
  default_is_stmt = refl;
  standard_opcode_lengths = refl;
  include_directories = refl;
  added = ([], sym (append-nil t.file_names));
  last_file_name_end = omega arith;
}

pub Extends-trans : (a b c : Table) → Extends a b → Extends b c → Extends a c
Extends-trans a b c f g =
    let (fs, e) = f.added in
    let (gs, e') = g.added in
    record {
      sec = g.sec ∙ f.sec;
      program_offset = g.program_offset ∙ f.program_offset;
      minimum_instruction_length = g.minimum_instruction_length ∙ f.minimum_instruction_length;
      maximum_operations = g.maximum_operations ∙ f.maximum_operations;
      line_base = g.line_base ∙ f.line_base;
      line_range = g.line_range ∙ f.line_range;
      opcode_base = g.opcode_base ∙ f.opcode_base;
      default_is_stmt = g.default_is_stmt ∙ f.default_is_stmt;
      standard_opcode_lengths = g.standard_opcode_lengths ∙ f.standard_opcode_lengths;
      include_directories = g.include_directories ∙ f.include_directories;
      added =
          (fs ++ gs, e' ∙ ap (λ (l : List FileEntry). l ++ gs) e ∙ append_assoc a.file_names fs gs);
      last_file_name_end = omega (arith, f.last_file_name_end, g.last_file_name_end);
    }

-- The three numbers of an entry.
numbers_Forward :
    (c : Cursor) {v1 v2 v3 : ℕ} {c1 c2 c3 : Cursor}
    → uleb128 c ≡ ok (v1, c1)
    → uleb128 c1 ≡ ok (v2, c2)
    → uleb128 c2 ≡ ok (v3, c3)
    → Forward c c3
numbers_Forward c {v1} {v2} {v3} {c1} {c2} {c3} e1 e2 e3 =
    Forward-trans (Forward-trans (uleb128-Forward c e1).0 (uleb128-Forward c1 e2).0)
      (uleb128-Forward c2 e3).0

in_directory-Ends : (o : Option (List ℕ)) (name : List ℕ) (i : ℕ) → Ends (in_directory o name i)
in_directory-Ends (some d) name i = ok-Ends _
in_directory-Ends none name i = λ e. cc

read_file_attributes-Ends :
    (t : Table) (name : List ℕ) (c : Cursor) → Ends (read_file_attributes t name c)
unfolding read_file_attributes
read_file_attributes-Ends t name c = bind-Ends (uleb128 c) _ (uleb128-Ends c) λ a1 e1.
    bind-Ends (uleb128 a1.1) _ (uleb128-Ends a1.1) λ a2 e2.
      bind-Ends (uleb128 a2.1) _ (uleb128-Ends a2.1) λ a3 e3.
        if-Ends (leb (get_section_offset a3.1) t.last_file_name_end) _ _ (ok-Ends _) (
          bind-Ends (file_path t name a1.0) _
            (if-Ends (starts_with_slash name) _ _ (ok-Ends _)
              (in_directory-Ends (get_elem? t.include_directories a1.0) name a1.0))
            λ p e. ok-Ends _)

pub read_file_entry-Ends :
    (t : Table) (in_header : Bool) (c : Cursor) → Ends (read_file_entry t in_header c)
unfolding read_file_entry
read_file_entry-Ends t in_header c = bind-Ends (Cursor.string c) _ (string-Ends c) λ a e.
    if-Ends (in_header && is_empty a.0) _ _ (ok-Ends _) (
      bind-Ends (read_file_attributes t a.0 a.1) _ (read_file_attributes-Ends t a.0 a.1)
        λ r e'. ok-Ends _)

-- What a read does to the table and the cursor.
abbrev pub Reads : Table → Cursor → Table × Cursor → Type 0
Reads t c r = Extends t r.0 × Forward c r.1

push_file-Extends :
    (t : Table) (f : FileEntry) (n : ℕ)
    → t.last_file_name_end ≤ n
    → Extends t (push_file f (record t { last_file_name_end = n }))
push_file-Extends t f n h = record {
  sec = refl;
  program_offset = refl;
  minimum_instruction_length = refl;
  maximum_operations = refl;
  line_base = refl;
  line_range = refl;
  opcode_base = refl;
  default_is_stmt = refl;
  standard_opcode_lengths = refl;
  include_directories = refl;
  added = (f ∷ [], refl);
  last_file_name_end = h;
}

read_file_attributes-Reads :
    (t : Table) (name : List ℕ) (c : Cursor) → Gives (Reads t c) (read_file_attributes t name c)
unfolding read_file_attributes
read_file_attributes-Reads t name c = bind-Gives _ (uleb128 c) _ λ a1 e1.
    bind-Gives _ (uleb128 a1.1) _ λ a2 e2. bind-Gives _ (uleb128 a2.1) _ λ a3 e3.
      let f =
        numbers_Forward c {v1 = a1.0} {v2 = a2.0} {v3 = a3.0} {c1 = a1.1} {c2 = a2.1} {c3 = a3.1} e1
          e2 e3 in
      elim (Bool-cases (leb (get_section_offset a3.1) t.last_file_name_end)) [
        | inl old ↦ rw old (ok-Gives (Reads t c) _ (Extends-refl t, f))
        | inr new ↦ rw new (
            bind-Gives (Reads t c) (file_path t name a1.0) _ λ p e.
              ok-Gives (Reads t c) _
                (push_file-Extends t _ (get_section_offset a3.1) (ground (arith, new)), f))
      ]

pub read_file_entry-Reads :
    (t : Table) (in_header : Bool) (c : Cursor)
    → c.pos ≤ c.sec.end
    → c.sec.end < u64_mod
    → Gives (λ r. Reads t c (r.1, r.2)) (read_file_entry t in_header c)
unfolding read_file_entry
read_file_entry-Reads t in_header c inside space = bind-Gives _ (Cursor.string c) _ λ a e.
    let f = string-Forward c inside space a e in
    if-Gives _ (in_header && is_empty a.0) _ _
      (ok-Gives (λ (r : Bool × Table × Cursor). Reads t c (r.1, r.2)) _ (Extends-refl t, f))
      (bind-Gives _ (read_file_attributes t a.0 a.1) _ λ r e'.
        let (x, g) = read_file_attributes-Reads t a.0 a.1 r e' in
        ok-Gives (λ (r : Bool × Table × Cursor). Reads t c (r.1, r.2)) _ (x, Forward-trans f g))

pub read_file_entry-Extends :
    (t : Table) (in_header : Bool) (c : Cursor)
    → Gives (λ r. Extends t r.1) (read_file_entry t in_header c)
unfolding read_file_entry
read_file_entry-Extends t in_header c =
    let P = λ (r : Bool × Table × Cursor). Extends t r.1 in
    bind-Gives P (Cursor.string c) _ λ a e.
      if-Gives P (in_header && is_empty a.0) _ _ (ok-Gives P _ (Extends-refl t)) (
        bind-Gives P (read_file_attributes t a.0 a.1) _
          λ r e'. ok-Gives P _ (read_file_attributes-Reads t a.0 a.1 r e').0)

-- A read that ended no later than the last one known to `later` is repeated without effect.
abbrev Repeats : (Table → Result (Table × Cursor)) → Table → Table × Cursor → Type 0
Repeats read later r =
    r.0.last_file_name_end ≤ later.last_file_name_end → read later ≡ ok (later, r.1)

attributes_again :
    (t later : Table) (name : List ℕ) (c : Cursor)
    → Gives (Repeats (λ t. read_file_attributes t name c) later) (read_file_attributes t name c)
unfolding read_file_attributes
attributes_again t later name c =
    let P = Repeats (λ t. read_file_attributes t name c) later in
    bind-Gives P (uleb128 c) _ λ a1 e1. bind-Gives P (uleb128 a1.1) _ λ a2 e2.
      bind-Gives P (uleb128 a2.1) _ λ a3 e3.
        let q = get_section_offset a3.1 in
        elim (Bool-cases (leb q t.last_file_name_end)) [
          | inl old ↦ rw old (
              ok-Gives P _ λ h.
                rw (e1, e2, e3, le→leb q later.last_file_name_end (omega (arith, leb→le _ _ old))))
          | inr new ↦ rw new (
              bind-Gives P (file_path t name a1.0) _ λ p e.
                let added =
                  push_file (record { path = p; mtime = a2.0; length = a3.0 })
                    (record t { last_file_name_end = q }) in
                ok-Gives P (added, a3.1) λ h. rw (e1, e2, e3, le→leb q later.last_file_name_end h))
        ]

-- An entry that was read once is read again without effect: the cursor moves as before, and the
-- table stays as it is, also if more entries have been read since.
pub read_file_entry_again :
    (t t' later : Table) (in_header more : Bool) (c c' : Cursor)
    → read_file_entry t in_header c ≡ ok (more, t', c')
    → t'.last_file_name_end ≤ later.last_file_name_end
    → read_file_entry later in_header c ≡ ok (more, later, c')
unfolding read_file_entry
read_file_entry_again t t' later in_header more c c' e h = repeat (more, t', c') e h
  where
    repeat :
        Gives
          (λ r.
            r.1.last_file_name_end ≤ later.last_file_name_end
            → read_file_entry later in_header c ≡ ok (r.0, later, r.2))
          (read_file_entry t in_header c)
    repeat =
        let P = λ (r : Bool × Table × Cursor).
          r.1.last_file_name_end ≤ later.last_file_name_end
          → read_file_entry later in_header c ≡ ok (r.0, later, r.2) in
        bind-Gives P (Cursor.string c) _ λ a e1. elim (Bool-cases (in_header && is_empty a.0)) [
          | inl stop ↦ rw stop (ok-Gives P _ λ h. rw (e1, stop))
          | inr go ↦ rw go (
              bind-Gives P (read_file_attributes t a.0 a.1) _ λ r e2.
                ok-Gives P (true, r.0, r.1)
                  λ h. rw (e1, go, attributes_again t later a.0 a.1 r e2 h))
        ]
