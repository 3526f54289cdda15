-- ===== src/Elf/Strtab.antt =====
-- elf/elf.cc: `strtab`, on the memory of a loaded section.
pub mod Bounds
use libelfin.Prelude.{ℕ, ◌-◌, List, leb, ◌==◌, true, false, if◌then◌else◌, not}
use libelfin.Result.{
  Result, ok, range_error, format_error, bad_string_offset, unterminated_string, guard, ◌>>=◌, ◌>>◌,
}
use libelfin.Dwarf.Section.{ptr_add}
use libelfin.Dwarf.Cursor.{scan_string}

-- `strtab::impl`
pub record Strtab : Type 0 where
  pub mem : List ℕ
  pub start : ℕ
  pub end : ℕ

-- `strtab(f, data, size)`
unfoldable pub strtab : List ℕ → ℕ → ℕ → Strtab
strtab mem ptr size = record { mem = mem; start = ptr; end = ptr_add ptr size }

-- From the pointer to the text on. The scan is `while (p < m->end && *p) p++;`.
unfoldable pub get_at : ℕ → Strtab → Result (ℕ × ℕ)
get_at text t = do
  guard (not (leb t.end text)) (range_error bad_string_offset)
  p ← scan_string (t.end - text) t.mem text
  guard (not (p == t.end)) (format_error unterminated_string)
  ok (text, p - text)

-- `strtab::get`: the pointer to the text and its size.
unfoldable pub get : ℕ → Strtab → Result (ℕ × ℕ)
get offset t = get_at (ptr_add t.start offset) t
