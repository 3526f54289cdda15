-- ===== src/Dwarf/DieStrMap.antt =====
-- dwarf/die_str_map.cc: an index of sibling entries by a text attribute, filled as it is asked.
pub mod Indexed
pub mod Siblings
use libelfin.Prelude.{
  ℕ, zero, suc, Bool, true, false, not, ◌&&◌, ◌||◌, Option, none, some, List, [], ◌∷◌, ◌==◌,
  if◌then◌else◌,
}
use libelfin.Result.{Result, ok, err, out_of_fuel, ◌>>=◌}
use libelfin.Dwarf.Attribute
use libelfin.Dwarf.Attribute.{any_of}
use libelfin.Dwarf.Abbrev.{ValueType}
use libelfin.Dwarf.File.{Dwarf}
use libelfin.Dwarf.Value.{as_string}
use libelfin.Dwarf.Die.{Die, has, lookup, begin, is_end, increment}

-- `string_eq`
abbrev pub string_eq : List ℕ → List ℕ → Bool
string_eq [] [] = true
string_eq [] (y ∷ ys) = false
string_eq (x ∷ xs) [] = false
string_eq (x ∷ xs) (y ∷ ys) = (x == y) && string_eq xs ys

-- `die_str_map::impl`: `end` is an entry without abbreviation, and `invalid` is `none`.
pub record DieStrMap : Type 0 where
  pub str_map : List (List ℕ × Die)
  pub attr : ℕ
  pub accept : List ℕ
  pub pos : Die

abbrev pub die_str_map : ℕ → Dwarf → Die → ℕ → List ℕ → Result DieStrMap
die_str_map limit d parent attr accept = do
  pos ← begin limit d parent
  ok (record { str_map = []; attr = attr; accept = accept; pos = pos })

-- The tags of types, as `from_type_names` lists them.
abbrev pub type_tags : List ℕ
type_tags =
    0x01 ∷ 0x02 ∷ 0x04 ∷ 0x0f ∷ 0x10 ∷ 0x12 ∷ 0x13 ∷ 0x15 ∷ 0x17 ∷ 0x1f ∷ 0x20 ∷ 0x21 ∷ 0x24 ∷ 0x26
    ∷ 0x29 ∷ 0x2d ∷ 0x35 ∷ 0x37 ∷ 0x38 ∷ 0x3b ∷ 0x40 ∷ 0x42 ∷ []

abbrev pub from_type_names : ℕ → Dwarf → Die → Result DieStrMap
from_type_names limit d parent = die_str_map limit d parent Attribute.name type_tags

-- `str_map.find(val)`
abbrev pub find_die : List ℕ → List (List ℕ × Die) → Option Die
find_die val [] = none
find_die val ((s, x) ∷ later) = if string_eq val s then some x else find_die val later

-- `str_map[dstr] = d`
abbrev pub put_die : List ℕ → Die → List (List ℕ × Die) → List (List ℕ × Die)
put_die s x [] = (s, x) ∷ []
put_die s x ((t, y) ∷ later) = if string_eq s t then (t, x) ∷ later else (t, y) ∷ put_die s x later

abbrev pub is_string : ValueType → Bool
is_string ValueType.string = true
is_string _ = false

-- The text of an entry, and `none` where the loop goes on.
abbrev pub text_of : Dwarf → ℕ → List ℕ → Die → Result (Option (List ℕ))
text_of d attr accept x = if not (any_of x.tag accept) || not (has x attr) then ok none else (do
  dval ← lookup x attr
  if is_string dval.type then (do s ← as_string d dval; ok (some s)) else ok none)

-- The end of the loop's body: the entry is put into the map, and is the answer or not.
abbrev pub index_die :
    (DieStrMap → Result (Option Die × DieStrMap))
    → List ℕ
    → Die
    → Option (List ℕ)
    → DieStrMap
    → Result (Option Die × DieStrMap)
index_die more val x none m = more m
index_die more val x (some s) m =
    let further = more (record m { str_map = put_die s x m.str_map }) in
    if string_eq val s then ok (some x, record m { str_map = put_die s x m.str_map }) else further

-- The loop. `d` refers to the entry inside the iterator, so after `++m->pos` it is the next entry.
-- Each `++` is granted `fuel` rounds.
unfoldable pub read_on : ℕ → ℕ → ℕ → Dwarf → List ℕ → DieStrMap → Result (Option Die × DieStrMap)
read_on zero fuel limit d val m = err out_of_fuel
read_on (suc rounds) fuel limit d val m =
    let further = (do
      x ← increment fuel limit d m.pos
      t ← text_of d m.attr m.accept x
      index_die (λ m'. read_on rounds fuel limit d val m') val x t (record m { pos = x })) in
    if is_end m.pos then ok (none, m) else further

abbrev pub answer_or :
    Result (Option Die × DieStrMap) → DieStrMap → Option Die → Result (Option Die × DieStrMap)
answer_or otherwise m (some x) = ok (some x, m)
answer_or otherwise m none = otherwise

-- `die_str_map::operator[]`
unfoldable pub find_text : ℕ → ℕ → ℕ → Dwarf → List ℕ → DieStrMap → Result (Option Die × DieStrMap)
find_text rounds fuel limit d val m =
    answer_or (read_on rounds fuel limit d val m) m (find_die val m.str_map)
