-- ===== src/Dwarf/Abbrev/Table.antt =====
-- dwarf/dwarf.cc: `unit::impl::force_abbrevs` and `unit::get_abbrev`. The table of a unit stands in
-- a map, or in a vector if its codes are dense.
pub mod Lookup
use libelfin.Prelude.{
  ℕ, zero, suc, ◌+◌, ◌*◌, ◌%◌, Bool, true, false, Option, none, some, List, [], ◌∷◌, ltb, leb, ◌==◌,
  if◌then◌else◌, length, get_elem?, replicate, set,
}
use libelfin.Result.{
  Result, ok, err, undefined, out_of_fuel, bad_alloc, format_error, unknown_abbrev_code, guard,
  ◌>>=◌, ◌>>◌,
}
use libelfin.Word.{u64_mod}
use libelfin.Dwarf.Section.{Section}
use libelfin.Dwarf.Cursor.{Cursor, cursor_at}
use libelfin.Dwarf.Abbrev.{AbbrevEntry, read_abbrev}

-- `abbrevs_vec` and `abbrevs_map`; an entry's key in the map is its code.
pub record AbbrevTable : Type 0 where
  pub vec : List AbbrevEntry
  pub map : List AbbrevEntry

-- `abbrev_entry()`
abbrev pub blank_entry : AbbrevEntry
blank_entry = record { code = 0; tag = 0; children = false; attributes = [] }

-- `abbrevs_map[entry.code] = entry`
unfoldable pub put_entry : AbbrevEntry → List AbbrevEntry → List AbbrevEntry
put_entry e [] = e ∷ []
put_entry e (x ∷ m) = if x.code == e.code then e ∷ m else x ∷ put_entry e m

-- `abbrevs_map.find(acode)`
unfoldable pub find_entry : ℕ → List AbbrevEntry → Option AbbrevEntry
find_entry code [] = none
find_entry code (x ∷ m) = if x.code == code then some x else find_entry code m

-- `while (entry.read(&c))`: the map and the highest code.
unfoldable pub read_entries :
    ℕ → ℕ → AbbrevEntry → Cursor → List AbbrevEntry → ℕ → Result (List AbbrevEntry × ℕ)
read_entries zero fuel e c m highest = err out_of_fuel
read_entries (suc rounds) fuel e c m highest = do
  (more, e', c') ← read_abbrev fuel e c
  let further =
      read_entries rounds fuel e' c' (put_entry e' m)
        (if ltb highest e'.code then e'.code else highest)
  if more then further else ok (m, highest)

-- `highest * 10 < abbrevs_map.size() * 15`
abbrev pub is_dense : List AbbrevEntry → ℕ → Bool
is_dense m highest = ltb ((highest * 10) % u64_mod) ((length m * 15) % u64_mod)

-- `abbrevs_vec[entry.first] = move(entry.second)`, for each entry of the map.
unfoldable pub move_entries : List AbbrevEntry → List AbbrevEntry → Result (List AbbrevEntry)
move_entries [] vec = ok vec
move_entries (e ∷ m) vec =
    let rest = move_entries m (set vec e.code e) in
    if ltb e.code (length vec) then rest else err undefined

-- The choice of the container. The allocator grants vectors of up to `limit` entries.
unfoldable pub store_entries : ℕ → List AbbrevEntry → ℕ → Result AbbrevTable
store_entries limit m highest =
    let size = (highest + 1) % u64_mod in
    if is_dense m highest
    then (do
      guard (leb size limit) bad_alloc
      vec ← move_entries m (replicate size blank_entry)
      ok (record { vec = vec; map = [] }))
    else ok (record { vec = []; map = m })

-- `force_abbrevs`, on the section of the abbreviations and the unit's offset in it.
unfoldable pub force_abbrevs : ℕ → ℕ → ℕ → Section → ℕ → Result AbbrevTable
force_abbrevs limit rounds fuel s debug_abbrev_offset = do
  (m, highest) ← read_entries rounds fuel blank_entry (cursor_at s debug_abbrev_offset) [] 0
  store_entries limit m highest

abbrev pub known_entry : ℕ → Option AbbrevEntry → Result AbbrevEntry
known_entry code none = err (format_error (unknown_abbrev_code code))
known_entry code (some e) = ok e

-- An entry of the vector that was never written has the code 0.
abbrev pub written_entry : ℕ → Option AbbrevEntry → Result AbbrevEntry
written_entry code none = err (format_error (unknown_abbrev_code code))
written_entry code (some e) =
    if e.code == 0 then err (format_error (unknown_abbrev_code code)) else ok e

abbrev pub lookup_in : List AbbrevEntry → List AbbrevEntry → ℕ → Result AbbrevEntry
lookup_in [] m code = known_entry code (find_entry code m)
lookup_in (e ∷ vec) m code = written_entry code (get_elem? (e ∷ vec) code)

-- `unit::get_abbrev`, once the table is there.
unfoldable pub get_abbrev : AbbrevTable → ℕ → Result AbbrevEntry
get_abbrev t code = lookup_in t.vec t.map code
