-- ===== src/Dwarf/SmallVector.antt =====
-- dwarf/small_vector.hh: a vector with room for some elements inside. The elements are numbers, whose
-- destructors do nothing, as in all its uses in the library.
pub mod Refine
pub mod Calls
use libelfin.Prelude.{
  ℕ, zero, suc, ◌+◌, ◌-◌, ◌*◌, ◌%◌, Bool, true, false, not, ◌&&◌, Option, none, some, List, [], ◌∷◌,
  ltb, leb, ◌==◌, if◌then◌else◌, length, get_elem?, replicate, set,
}
use libelfin.Result.{Result, ok, err, undefined, out_of_fuel, bad_alloc, guard, ◌>>=◌, ◌>>◌}
use libelfin.Word.{u64_mod}

-- The memory from `base` to `cap`, an element that was never constructed being `none`; `external`
-- if it is not the buffer inside; the number of elements up to `end`.
pub record SmallVector : Type 0 where
  pub external : Bool
  pub slots : List (Option ℕ)
  pub count : ℕ

-- `cap - base`
abbrev pub capacity : SmallVector → ℕ
capacity v = length v.slots

-- `small_vector()`, with Min places inside
pub small_vector : ℕ → SmallVector
small_vector min = record { external = false; slots = replicate min none; count = 0 }

-- `while (target < n) target <<= 1;`
unfoldable pub double : ℕ → ℕ → ℕ → Result ℕ
double zero n target = err out_of_fuel
double (suc rounds) n target =
    let further = double rounds n ((target * 2) % u64_mod) in
    if ltb target n then further else ok target

-- `for (; src < end; src++, dest++) new(dest) T(*src);` into `target` new places
unfoldable pub copy_slots : ℕ → ℕ → List (Option ℕ) → List (Option ℕ)
copy_slots zero target src = replicate target none
copy_slots (suc n) zero src = []
copy_slots (suc n) (suc target) [] = none ∷ copy_slots n target []
copy_slots (suc n) (suc target) (x ∷ src) = x ∷ copy_slots n target src

-- `reserve`, where the allocator grants up to `limit` places; and what then stands in the memory
-- that `base` pointed to before: nothing, where `delete[]` has freed it, which leaves the buffer
-- inside alone.
unfoldable pub grow : ℕ → ℕ → SmallVector → Result (SmallVector × Option (List (Option ℕ)))
grow limit n v =
    let grown = (do
      target ← double 65 n (if capacity v == 0 then 1 else capacity v)
      guard (leb target limit) bad_alloc
      ok (
        record { external = true; slots = copy_slots v.count target v.slots; count = v.count },
        if v.external then none else some v.slots,
      )) in
    if leb n (capacity v) then ok (v, some v.slots) else grown

-- `reserve`
unfoldable pub reserve : ℕ → ℕ → SmallVector → Result SmallVector
reserve limit n v = do (v', old) ← grow limit n v; ok v'

-- `new (end) T(x); end++;`
abbrev pub put_end : ℕ → SmallVector → SmallVector
put_end x v = record v { slots = set v.slots v.count (some x); count = v.count + 1 }

-- `push_back`, of an element that does not stand in the vector.
unfoldable pub push_back : ℕ → ℕ → SmallVector → Result SmallVector
push_back limit x v = do v' ← reserve limit (v.count + 1) v; ok (put_end x v')

abbrev pub constructed : Option (Option ℕ) → Result ℕ
constructed none = err undefined
constructed (some none) = err undefined
constructed (some (some x)) = ok x

-- `base[n]`
unfoldable pub at : ℕ → SmallVector → Result ℕ
at n v = constructed (get_elem? v.slots n)

-- `*(end - 1 - n)`, below `base` if there are not so many elements
unfoldable pub revat : ℕ → SmallVector → Result ℕ
revat n v = if ltb n v.count then at (v.count - 1 - n) v else err undefined

-- A read through a reference into memory that may have been freed.
abbrev pub read_old : ℕ → Option (List (Option ℕ)) → Result ℕ
read_old i none = err undefined
read_old i (some slots) = constructed (get_elem? slots i)

-- `push_back(v.revat(n))`: the argument is a reference into the vector's memory, and `new (end) T(x)`
-- reads it there, after `reserve`. The reference to what lies below `base` is undefined.
unfoldable pub push_revat : ℕ → ℕ → SmallVector → Result SmallVector
push_revat limit n v =
    let pushed = (do
      (v', old) ← grow limit (v.count + 1) v
      x ← read_old (v.count - 1 - n) old
      ok (put_end x v')) in
    if ltb n v.count then pushed else err undefined

-- `pop_back`
unfoldable pub pop_back : SmallVector → Result SmallVector
pop_back v =
    if v.count == 0
    then err undefined
    else ok (record v { slots = set v.slots (v.count - 1) none; count = v.count - 1 })

-- `clear`
abbrev pub clear : SmallVector → SmallVector
clear v = record v { slots = replicate (length v.slots) none; count = 0 }

-- `operator=`, from another vector
unfoldable pub assign : ℕ → SmallVector → SmallVector → Result SmallVector
assign limit o v = do
  v' ← reserve limit o.count (clear v)
  ok (record v' { slots = copy_slots o.count (capacity v') o.slots; count = o.count })

-- The move constructor: the new vector, and what is left of the old one.
unfoldable pub move_from : ℕ → ℕ → SmallVector → Result (SmallVector × SmallVector)
move_from limit min o =
    let inside = (do v ← assign limit o (small_vector min); ok (v, clear o)) in
    if o.external then ok (o, small_vector min) else inside
