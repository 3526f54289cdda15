-- ===== src/Dwarf/Ranges.antt =====
-- dwarf/rangelist.cc: `rangelist`, its entries and its iterator.
pub mod Synthetic
pub mod Total
use libelfin.Prelude.{
  ℕ, zero, suc, ◌-◌, ◌*◌, ◌/◌, ◌%◌, ◌^◌, Bool, true, false, ◌&&◌, Option, none, some, List, [], ◌∷◌,
  ◌++◌, ltb, leb, ◌==◌, if◌then◌else◌, length,
}
use libelfin.Result.{Result, ok, err, undefined, out_of_fuel, ◌>>=◌}
use libelfin.Word.{u64_mod, add64}
use libelfin.Dwarf.Section.{Section, SectionType, Format, ByteOrder, lsb, msb, slice}
use libelfin.Dwarf.Cursor.{Cursor, cursor_at, get_section_offset, address}

pub record Entry : Type 0 where
  pub low : ℕ
  pub high : ℕ

-- `rangelist::entry::contains`
unfoldable pub entry_contains : Entry → ℕ → Bool
entry_contains e addr = leb e.low addr && ltb addr e.high

-- An iterator without a section is the end.
pub record Iterator : Type 0 where
  pub sec : Option Section
  pub base_addr : ℕ
  pub pos : ℕ
  pub entry : Entry

pub record RangeList : Type 0 where
  pub sec : Option Section
  pub base_addr : ℕ

-- `~(taddr)0`, and for short addresses `+= 1 << (8 * sec->addr_size)` on an int of 32 bits: the
-- shift is undefined from 32 on.
unfoldable pub largest_offset : ℕ → Result ℕ
largest_offset addr_size =
    if ltb addr_size 8
    then (if ltb (8 * addr_size) 32
        then ok (add64 (u64_mod - 1) (2 ^ (8 * addr_size)))
        else err undefined)
    else ok (u64_mod - 1)

abbrev pub at_entry : Section → ℕ → ℕ → ℕ → Cursor → Iterator
at_entry s base low high c = record {
  sec = some s;
  base_addr = base;
  pos = get_section_offset c;
  entry = record { low = add64 low base; high = add64 high base };
}

abbrev pub at_last : ℕ → Iterator
at_last base = record {
  sec = none;
  base_addr = base;
  pos = 0;
  entry = record { low = 0; high = 0 };
}

-- `while (true)` of `operator++`, from the cursor on.
unfoldable pub scan_entries : ℕ → Section → ℕ → ℕ → Cursor → Result Iterator
scan_entries zero s largest base c = err out_of_fuel
scan_entries (suc fuel) s largest base c = do
  (low, c1) ← address c
  (high, c2) ← address c1
  let further = scan_entries fuel s largest high c2
  if low == 0 && high == 0
      then ok (at_last base)
      else if low == largest
      then further
      else ok (at_entry s base low high c2)

-- `operator++` from the position behind the current entry.
unfoldable pub advance_from : ℕ → Section → ℕ → ℕ → Result Iterator
advance_from fuel s base pos = do
  largest ← largest_offset s.addr_size
  scan_entries fuel s largest base (cursor_at s pos)

abbrev pub next_of : ℕ → Option Section → ℕ → ℕ → Result Iterator
next_of fuel none base pos = err undefined
next_of fuel (some s) base pos = advance_from fuel s base pos

pub next : ℕ → Iterator → Result Iterator
next fuel it = next_of fuel it.sec it.base_addr it.pos

abbrev pub end_iterator : Iterator
end_iterator = at_last 0

abbrev pub begin_of : ℕ → Option Section → ℕ → Result Iterator
begin_of fuel none base = ok end_iterator
begin_of fuel (some s) base = advance_from fuel s base 0

-- `rangelist::begin`
pub begin : ℕ → RangeList → Result Iterator
begin fuel r = begin_of fuel r.sec r.base_addr

-- `for (auto ent : *this) if (ent.contains(addr)) return true; return false;` over the iterator:
-- it differs from `end()` while it has a section.
unfoldable pub contains_from : ℕ → ℕ → Option Section → Iterator → ℕ → Result Bool
contains_from rounds fuel none it addr = ok false
contains_from zero fuel (some s) it addr = err out_of_fuel
contains_from (suc rounds) fuel (some s) it addr =
    if entry_contains it.entry addr then ok true else (do
      it' ← advance_from fuel s it.base_addr it.pos
      contains_from rounds fuel it'.sec it' addr)

-- `rangelist::contains`
unfoldable pub contains : ℕ → ℕ → RangeList → ℕ → Result Bool
contains rounds fuel r addr = do
  it ← begin_of fuel r.sec r.base_addr
  contains_from rounds fuel it.sec it addr

-- `rangelist(sec, off, cu_addr_size, cu_low_pc)`
pub range_list : Section → ℕ → ℕ → ℕ → RangeList
range_list s off cu_addr_size cu_low_pc = record {
  sec = some (slice s off (u64_mod - 1) Format.unknown cu_addr_size);
  base_addr = cu_low_pc;
}

-- The bytes of a taddr in memory.
abbrev pub le_bytes : ℕ → ℕ → List ℕ
le_bytes zero v = []
le_bytes (suc n) v = v % 256 ∷ le_bytes n (v / 256)

abbrev pub be_bytes : ℕ → ℕ → List ℕ
be_bytes zero v = []
be_bytes (suc n) v = be_bytes n (v / 256) ++ (v % 256 ∷ [])

abbrev pub word_bytes : ByteOrder → ℕ → List ℕ
word_bytes lsb v = le_bytes 8 v
word_bytes msb v = be_bytes 8 v

-- `synthetic`, as the bytes of the vector: the pairs, then two zeros.
unfoldable pub synthetic : ByteOrder → List Entry → List ℕ
synthetic native [] = word_bytes native 0 ++ word_bytes native 0
synthetic native (e ∷ es) =
    word_bytes native e.low ++ (word_bytes native e.high ++ synthetic native es)

-- A section over `mem` alone, in the order of the machine.
abbrev pub pair_section : ByteOrder → List ℕ → Section
pair_section native mem = record {
  type = SectionType.ranges;
  mem = mem;
  begin = 0;
  end = length mem;
  fmt = Format.unknown;
  ord = native;
  addr_size = 8;
}

-- `rangelist(ranges)`
unfoldable pub of_ranges : ByteOrder → List Entry → RangeList
of_ranges native es = record {
  sec = some (pair_section native (synthetic native es));
  base_addr = 0;
}
