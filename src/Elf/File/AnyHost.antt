-- ===== src/Elf/File/AnyHost.antt =====
-- elf/elf.cc: a file reads the same on every machine.
use libelfin.Prelude.{ℕ, zero, suc, ◌+◌, ◌≡◌, refl, ap, ◌∙◌, sym, List, arith, All}
use libelfin.Result.{Result, ok, ◌>>=◌, bind_alike}
use libelfin.Word.{IsByte}
use libelfin.Dwarf.Section.{ByteOrder}
use libelfin.Elf.Header.{
  ElfClass, elf32, elf64, from, ident_sizes, ehdr_sizes, shdr_sizes, shdr_of, phdr_sizes, phdr_of,
  canon_ehdr, canon_shdr, canon_phdr,
}
use libelfin.Elf.Header.Host.{IsSize, from-fields_in}
use libelfin.Elf.File.{Load, check_core, check_hdr, ehdr_size, table_size, read_table, elf}

-- The loader gives memory of bytes.
pub record LoadsBytes (load : Load) : Type 0 where
  pub bytes : (offset size : ℕ) (r : List ℕ × ℕ) → load offset size ≡ ok r → All IsByte r.0

ehdr_sizes-IsSize : (cls : ElfClass) → All IsSize (ehdr_sizes cls)
ehdr_sizes-IsSize elf32 = omega arith
ehdr_sizes-IsSize elf64 = omega arith

shdr_sizes-IsSize : (cls : ElfClass) → All IsSize (shdr_sizes cls)
shdr_sizes-IsSize elf32 = omega arith
shdr_sizes-IsSize elf64 = omega arith

phdr_sizes-IsSize : (cls : ElfClass) → All IsSize (phdr_sizes cls)
phdr_sizes-IsSize elf32 = omega arith
phdr_sizes-IsSize elf64 = omega arith

module _ (host host' order : ByteOrder) (cls : ElfClass) (mem : List ℕ)
    (bytes : All IsByte mem) where
  same_fields :
      (sizes : List ℕ) (p : ℕ)
      → All IsSize sizes
      → from host order sizes mem p ≡ from host' order sizes mem p
  same_fields sizes p short =
      from-fields_in host order sizes mem p bytes short
      ∙ sym (from-fields_in host' order sizes mem p bytes short)

  same_ehdr : (p : ℕ) → canon_ehdr host cls order mem p ≡ canon_ehdr host' cls order mem p
  unfolding canon_ehdr
  same_ehdr p =
      rw
        (
          same_fields ident_sizes p (omega arith),
          same_fields (ehdr_sizes cls) (p + 16) (ehdr_sizes-IsSize cls),
        )
        refl

  same_shdr : (p : ℕ) → canon_shdr host cls order mem p ≡ canon_shdr host' cls order mem p
  unfolding canon_shdr
  same_shdr p =
      ap (λ (r : Result (List ℕ)). r >>= shdr_of)
        (same_fields (shdr_sizes cls) p (shdr_sizes-IsSize cls))

  same_phdr : (p : ℕ) → canon_phdr host cls order mem p ≡ canon_phdr host' cls order mem p
  unfolding canon_phdr
  same_phdr p =
      ap (λ (r : Result (List ℕ)). r >>= phdr_of cls)
        (same_fields (phdr_sizes cls) p (phdr_sizes-IsSize cls))

same_table :
    {A : Type 0} (canon canon' : ℕ → Result A) (n i p entsize : ℕ)
    → ((q : ℕ) → canon q ≡ canon' q)
    → read_table canon n i p entsize ≡ read_table canon' n i p entsize
unfolding read_table
same_table canon canon' zero i p entsize same = refl
same_table canon canon' (suc n) i p entsize same =
    rw (same _, same_table canon canon' n (i + 1) p entsize same) refl

-- The constructor of `elf` gives the same file, or fails alike, on machines of both byte orders.
pub elf_any_host :
    (host host' : ByteOrder) (load : Load) → LoadsBytes load → elf host load ≡ elf host' load
unfolding elf
elf_any_host host host' load loads = bind_alike _ (load 0 7) _ _ refl λ core e1.
    bind_alike _ (check_core core.0 core.1) _ _ refl λ k e2.
      bind_alike _ (load 0 (ehdr_size k.0)) _ _ refl λ m e3.
        bind_alike _ (canon_ehdr host' k.0 k.1 m.0 m.1) _ _
          (same_ehdr host host' k.1 k.0 m.0 (loads.bytes 0 (ehdr_size k.0) m e3) m.1)
          λ hdr e4. bind_alike _ (check_hdr hdr) _ _ refl λ u e5.
            bind_alike _ (table_size hdr.phentsize hdr.phnum) _ _ refl λ n e6.
              bind_alike _ (load hdr.phoff n) _ _ refl λ g e7.
                bind_alike _
                  (read_table (canon_phdr host' k.0 k.1 g.0) hdr.phnum 0 g.1 hdr.phentsize) _ _
                  (same_table (canon_phdr host k.0 k.1 g.0) (canon_phdr host' k.0 k.1 g.0) hdr.phnum
                    0 g.1 hdr.phentsize
                    (same_phdr host host' k.1 k.0 g.0 (loads.bytes hdr.phoff n g e7)))
                  λ segments e8. bind_alike _ (table_size hdr.shentsize hdr.shnum) _ _ refl λ l e9.
                    bind_alike _ (load hdr.shoff l) _ _ refl λ s e10.
                      bind_alike _
                        (read_table (canon_shdr host' k.0 k.1 s.0) hdr.shnum 0 s.1 hdr.shentsize) _
                        _
                        (same_table (canon_shdr host k.0 k.1 s.0) (canon_shdr host' k.0 k.1 s.0)
                          hdr.shnum 0 s.1 hdr.shentsize
                          (same_shdr host host' k.1 k.0 s.0 (loads.bytes hdr.shoff l s e10)))
                        λ sections e11. refl
