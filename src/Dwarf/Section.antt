-- ===== src/Dwarf/Section.antt =====
-- dwarf/internal.hh: `format`, `byte_order` and `section`. The loaded image is a list of bytes,
-- and a pointer is an index into it: `begin` and `end` of a section, `pos` of a cursor. Pointer
-- arithmetic wraps at 2 ^ 64.
use libelfin.Prelude.{ℕ, List, ltb, ◌==◌, if◌then◌else◌}
use libelfin.Word.{sub64, add64}

pub data Format : Type 0 where
  unknown dwarf32 dwarf64 : Format

pub data ByteOrder : Type 0 where
  lsb msb : ByteOrder

-- `enum class section_type`
pub data SectionType : Type 0 where
  abbrev_ aranges frame info line loc macinfo pubnames pubtypes ranges str types : SectionType

pub record Section : Type 0 where
  pub type : SectionType
  pub mem : List ℕ
  pub begin : ℕ
  pub end : ℕ
  pub fmt : Format
  pub ord : ByteOrder
  pub addr_size : ℕ

-- `p + n` on pointers
abbrev pub ptr_add : ℕ → ℕ → ℕ
ptr_add = add64

-- `std::min`
abbrev pub min64 : ℕ → ℕ → ℕ
min64 a b = if ltb b a then b else a

unfoldable pub size : Section → ℕ
size s = sub64 s.end s.begin

-- `if (fmt == format::unknown) fmt = this->fmt;`
abbrev pub format_or : Format → Format → Format
format_or unknown own = own
format_or dwarf32 own = dwarf32
format_or dwarf64 own = dwarf64

-- The length is cut to the size of the whole section, whatever `start` is.
unfoldable pub slice : Section → ℕ → ℕ → Format → ℕ → Section
slice s start len fmt addr_size = record s {
  begin = ptr_add s.begin start;
  end = ptr_add (ptr_add s.begin start) (min64 len (sub64 s.end s.begin));
  fmt = format_or fmt s.fmt;
  addr_size = if addr_size == 0 then s.addr_size else addr_size;
}
