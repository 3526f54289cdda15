-- ===== src/Elf/File/Checked.antt =====
-- elf/elf.cc: what the constructor of `elf` establishes.
use libelfin.Prelude.{
  ℕ, zero, suc, ◌+◌, ◌<◌, ◌≡◌, ◌≢◌, refl, Bool, true, false, not, ◌&&◌, some, List, [], ◌∷◌, arith,
  leb, ◌==◌, ==_iff, length, get_elem?_lt,
}
use libelfin.Result.{
  Result, ok, format_error, bad_elf_version, bad_shstrndx, guard, Gives, ok-Gives, bind-Gives,
  >>=-eq-ok,
}
use libelfin.Dwarf.Section.{ByteOrder}
use libelfin.Elf.Header.{Shdr, Phdr, canon_ehdr, canon_phdr, canon_shdr}
use libelfin.Elf.File.{
  Load, Elf, check_core, check_hdr, ehdr_size, table_size, read_table, elf, get_section,
  get_segment,
}

read_table-length {ℓ} :
    {A : Type ℓ} (canon : ℕ → Result A) (n i p entsize : ℕ)
    → Gives (λ xs. length xs ≡ n) (read_table canon n i p entsize)
unfolding read_table
read_table-length {A = A} canon zero i p entsize = ok-Gives (λ xs. length xs ≡ 0) [] refl
read_table-length {A = A} canon (suc n) i p entsize = bind-Gives P (canon _) _ λ x e.
    bind-Gives P (read_table canon n (i + 1) p entsize) _ λ xs e'.
      ok-Gives P (x ∷ xs) (omega (arith, read_table-length canon n (i + 1) p entsize xs e'))
  where
    P : List A → Type 0
    P = λ xs. length xs ≡ suc n

names_hold :
    (shnum shstrndx : ℕ)
    → not (not (shnum == 0) && leb shnum shstrndx) ≡ true
    → shnum ≢ 0
    → shstrndx < shnum
names_hold shnum shstrndx h some_section = ground (arith, h)

guard-true : (b : Bool) (u : Unit {0}) → guard b (format_error bad_elf_version) ≡ ok u → b ≡ true
guard-true true u e = refl
guard-true false u e = absurd (cc)

guard_names : (b : Bool) (u : Unit {0}) → guard b (format_error bad_shstrndx) ≡ ok u → b ≡ true
guard_names true u e = refl
guard_names false u e = absurd (cc)

-- A header that passes, with as many sections and segments as it says.
pub record IsChecked (f : Elf) : Type 0 where
  pub version : f.hdr.version ≡ 1
  pub section_count : length f.sections ≡ f.hdr.shnum
  pub segment_count : length f.segments ≡ f.hdr.phnum
  pub names : f.hdr.shnum ≢ 0 → (s : Shdr) × (get_section f.hdr.shstrndx f ≡ some s)
  pub sections_there : (i : ℕ) → i < f.hdr.shnum → (s : Shdr) × (get_section i f ≡ some s)
  pub segments_there : (i : ℕ) → i < f.hdr.phnum → (s : Phdr) × (get_segment i f ≡ some s)

-- A file that the constructor of `elf` accepts has a header of version 1 and as many sections and
-- segments as the header counts, each found under its index; and if it has sections, the one with
-- the names of the sections is among them, so that asking for a name follows no null pointer.
pub elf-IsChecked : (host : ByteOrder) (load : Load) (f : Elf) → elf host load ≡ ok f → IsChecked f
unfolding elf get_section get_segment
elf-IsChecked host load = bind-Gives P (load 0 7) _ λ core e1.
    bind-Gives P (check_core core.0 core.1) _ λ k e2.
      bind-Gives P (load 0 (ehdr_size k.0)) _ λ m e3.
        bind-Gives P (canon_ehdr host k.0 k.1 m.0 m.1) _ λ hdr e4.
          bind-Gives P (check_hdr hdr) _ λ u passed.
            bind-Gives P (table_size hdr.phentsize hdr.phnum) _ λ n e5.
              bind-Gives P (load hdr.phoff n) _ λ g e6.
                bind-Gives P
                  (read_table (canon_phdr host k.0 k.1 g.0) hdr.phnum 0 g.1 hdr.phentsize) _
                  λ segments e7. bind-Gives P (table_size hdr.shentsize hdr.shnum) _ λ l e8.
                    bind-Gives P (load hdr.shoff l) _ λ s e9.
                      bind-Gives P
                        (read_table (canon_shdr host k.0 k.1 s.0) hdr.shnum 0 s.1 hdr.shentsize) _
                        λ sections e10.
                          let (v, right, rest) =
                            >>=-eq-ok (guard (hdr.version == 1) (format_error bad_elf_version)) _
                              passed in
                          let count =
                            read_table-length (canon_shdr host k.0 k.1 s.0) hdr.shnum 0 s.1
                              hdr.shentsize sections e10 in
                          let seg_count =
                            read_table-length (canon_phdr host k.0 k.1 g.0) hdr.phnum 0 g.1
                              hdr.phentsize segments e7 in
                          ok-Gives P _ (record {
                            version =
                                (==_iff hdr.version 1).0 (guard-true (hdr.version == 1) v right);
                            section_count = count;
                            segment_count = seg_count;
                            names = λ some_section.
                                let inside =
                                  names_hold hdr.shnum hdr.shstrndx (guard_names _ u rest)
                                    some_section in
                                get_elem?_lt sections hdr.shstrndx (omega arith);
                            sections_there = λ i lt. get_elem?_lt sections i (omega arith);
                            segments_there = λ i lt. get_elem?_lt segments i (omega arith);
                          })
  where
    P : Elf → Type 0
    P = IsChecked
