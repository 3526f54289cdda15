-- ===== src/Lib.antt =====
-- libelfin, a C++11 library that reads ELF files and DWARFv4 debug information: a model of its readers,
-- and what holds of them.
--
-- The program. A `section` is a piece of the loaded file with its byte order, its format (32-bit or
-- 64-bit DWARF) and its address size; a `cursor` walks over a section and decodes integers, LEB128
-- numbers, texts and subsections. On the cursor stand the readers: `expr::evaluate` runs DWARF
-- expressions on a stack machine, `rangelist` iterates over .debug_ranges or over a list of pairs in
-- memory, and `line_table` reads a header of .debug_line and runs its line number program. Above them
-- stand the abbreviations, which give each attribute of an entry its form and the type of its
-- value. A `dwarf` object opens the sections of a file through a loader and reads the headers of its
-- units; a unit has a table of abbreviations and a tree of entries (`die`), whose attributes are
-- `value`s that the accessors read, among them references to other entries.
--
-- `elf` reads the headers of an ELF file, its sections, string and symbol tables; its sections are
-- what the loader of a `dwarf` object hands out under the names of dwarf/elf.cc. `small_vector` is
-- the vector of an entry's attributes and of the evaluator's stack.
--
-- Outside the model: mmap_loader.cc, the examples and the tests, which are input and output;
-- to_string of a value and get_description of a row, which format text; the printing of
-- enumerations, which is generated.
--
-- The model, file by file:
--   Prelude, Result, Word           shared names and lemmas, outcomes of calls, 64-bit words
--   Dwarf/Section                   dwarf/internal.hh: format, byte_order, section
--   Dwarf/Cursor                    dwarf/internal.hh and dwarf/cursor.cc: cursor
--     Image, Leb, Sleb, Fixed         decoding of numbers; Ends, Progress: the reads return, and move
--                                     the cursor forward
--   Dwarf/Form, Dwarf/Skip          dwarf/data.hh (DW_FORM), cursor::skip_form
--   Dwarf/Op, Dwarf/Alu             dwarf/data.hh (DW_OP), the arithmetic of dwarf/expr.cc
--   Dwarf/Machine, Dwarf/Expr       dwarf/expr.cc: the stack machine and expr::evaluate;
--                                   Expr/Memory: its stack as a small_vector
--   Dwarf/Ranges                    dwarf/rangelist.cc
--   Dwarf/Line                      dwarf/line.cc: rows, file entries; Line/Header: the constructor;
--                                   Line/Program: iterator::step; Line/Iterator: operator++, begin,
--                                   end, find_address, get_file
--   Dwarf/Attribute, Dwarf/Abbrev   dwarf/data.hh (DW_AT), dwarf/abbrev.cc
--     Abbrev/Table                  dwarf/dwarf.cc: unit::get_abbrev, unit::impl::force_abbrevs
--   Dwarf/Units                     dwarf/dwarf.cc: compilation_unit, type_unit
--   Dwarf/Pubnames                  dwarf/internal.hh: name_unit, name_entry
--   Dwarf/File                      dwarf/dwarf.cc: dwarf; File/Sniff, Opened, Cache: its byte order,
--                                   its units, what it keeps
--   Dwarf/Value                     dwarf/value.cc
--   Dwarf/Die                       dwarf/die.cc, value::as_reference, value::as_rangelist
--   Dwarf/DieStrMap                 dwarf/die_str_map.cc
--   Dwarf/Attrs                     dwarf/attrs.cc, compilation_unit::get_line_table
--   Dwarf/SmallVector               dwarf/small_vector.hh
--   Dwarf/Names, Dwarf/ElfLoader    dwarf/elf.cc; elf_loader of dwarf/dwarf++.hh
--   Elf/Hex, Elf/Order              elf/to_hex.hh, elf/common.hh
--   Elf/Header, Elf/Strtab          elf/data.hh and canon_hdr, strtab of elf/elf.cc
--   Elf/File, Elf/Symtab            elf/elf.cc: elf, sections, segments; symtab and sym
--   Tests                           concrete runs
--
-- Conventions. The loaded file is one list of bytes, and a pointer is an index into it; pointer
-- arithmetic and unsigned arithmetic wrap as in C++ on a 64-bit machine, and a signed value is the
-- pattern of its bits. A method that changes an object returns the new object. An exception is a
-- value of `Error` with the class and the reason of its message; what C++ leaves undefined (a read
-- outside the image, a shift by the width of a word, signed overflow, an index outside a vector) is
-- the error `undefined`. After an exception no state is modelled. The image is at most a list that
-- a 64-bit pointer can address; where a theorem needs that a section lies in it, it says `InImage`.
-- A line table's files are shared by its iterators: `next_row` takes and returns the table, and a
-- row names its file by the index in the table in place of a pointer.
--
-- Loops. Loops up to the end of a section recur on the bytes left. `skip_form` (its indirect forms),
-- the evaluator, range lists, line tables and abbreviations take fuel, whose end is the error
-- `out_of_fuel`, no outcome of the program; the number of bytes of the section is always enough, but
-- for expressions with jumps, which need not end, and for a line table whose header points past its
-- end. An entry is read with a table that has as many rounds as .debug_abbrev has bytes; the iterator
-- over siblings takes fuel, and needs no more than the entries of the subtree; the query of a DIE
-- string map takes one round for each entry that it reads.
--
-- Parameters. `expr_context` and the loaders of `dwarf` and `elf` objects are code of the library's
-- user: a record of functions, and functions from section types, or from offsets and sizes, to
-- memory. `limit` is the largest vector that the allocator grants.
pub mod Prelude
pub mod Result
pub mod Word
pub mod Dwarf
pub mod Elf
pub mod Tests
