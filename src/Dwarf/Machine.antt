-- ===== src/Dwarf/Machine.antt =====
-- dwarf/expr.cc and dwarf/dwarf++.hh: the state of the expression evaluator, its result, what its
-- caller supplies, and the accesses to its stack. The stack, a small_vector with 8 places inside, is
-- the list of its entries, the top at the head, with the number of its places: 8 as long as it is in
-- the buffer inside. The allocator does not refuse. (Expr/Memory relates it to Dwarf/SmallVector.)
use libelfin.Prelude.{
  ℕ, zero, suc, ◌*◌, not, ◌&&◌, Option, List, [], ◌∷◌, ltb, leb, ◌==◌, if◌then◌else◌, length,
  get_elem?,
}
use libelfin.Result.{Result, ok, err, undefined, expr_error, stack_underflow, ◌>>=◌}
use libelfin.Dwarf.Cursor.{Cursor, to_byte}

-- `expr_context`: what the caller of the evaluator supplies.
pub record Context : Type 0 where
  pub reg : ℕ → Result ℕ
  pub deref_size : ℕ → ℕ → Result ℕ
  pub xderef_size : ℕ → ℕ → ℕ → Result ℕ
  pub form_tls_address : ℕ → Result ℕ

-- `expr_result::type`
pub data LocationType : Type 0 where
  address_ reg literal implicit_ empty : LocationType

-- `expr_result`: a field that no operation has set is `none`.
pub record ExprResult : Type 0 where
  pub location_type : LocationType
  pub value : Option ℕ
  pub implicit : Option ℕ
  pub implicit_len : Option ℕ

pub record Machine : Type 0 where
  pub cur : Cursor
  pub stack : List ℕ
  pub room : ℕ
  pub result : ExprResult

abbrev pub underflow {ℓ} : {A : Type ℓ} → Result A
underflow = err (expr_error stack_underflow)

-- `reserve`: the places are doubled until there are enough.
abbrev pub room_for : ℕ → ℕ → ℕ → ℕ
room_for zero n room = room
room_for (suc rounds) n room = if leb n room then room else room_for rounds n (room * 2)

-- The machine with another stack. Only where it is longer than the places is memory taken, and one
-- doubling makes room for one more entry.
abbrev pub set_stack : Machine → List ℕ → Machine
set_stack m s = record m { stack = s; room = room_for 1 (length s) m.room }

-- `stack.push_back(…)` of a value that is read at the cursor.
abbrev pub push_read : Result (ℕ × Cursor) → Machine → Result Machine
push_read r m = do (v, c) ← r; ok (set_stack (record m { cur = c }) (v ∷ m.stack))

-- `CHECK()` and `CHECKN(2)`, and the entries that they guard.
abbrev pub on_top : (ℕ → Result ℕ) → List ℕ → Result (List ℕ)
on_top f [] = underflow
on_top f (a ∷ s) = do v ← f a; ok (v ∷ s)

abbrev pub on_two : (ℕ → ℕ → Result ℕ) → List ℕ → Result (List ℕ)
on_two f [] = underflow
on_two f (a ∷ []) = underflow
on_two f (a ∷ b ∷ s) = do v ← f a b; ok (v ∷ s)

abbrev pub with_stack : Machine → Result (List ℕ) → Result Machine
with_stack m r = do s ← r; ok (set_stack m s)

-- `stack.push_back(stack.revat(n))`: the argument is a reference to an entry. If all the places are
-- taken and they are not the buffer inside, growing frees them before the entry is read.
abbrev pub push_own : ℕ → ℕ → List ℕ → Result (List ℕ)
push_own room n s =
    if leb room (length s) && not (room == 8)
    then err undefined
    else (do v ← to_byte (get_elem? s n); ok (v ∷ s))

abbrev pub dup_stack : ℕ → List ℕ → Result (List ℕ)
dup_stack room [] = underflow
dup_stack room (a ∷ s) = push_own room 0 (a ∷ s)

abbrev pub drop_stack : List ℕ → Result (List ℕ)
drop_stack [] = underflow
drop_stack (a ∷ s) = ok s

-- `CHECKN(n); stack.push_back(stack.revat(n));`: at size n the entry lies below the vector.
abbrev pub pick_stack : ℕ → ℕ → List ℕ → Result (List ℕ)
pick_stack room n s = if ltb (length s) n then underflow else push_own room n s

abbrev pub swap_stack : List ℕ → Result (List ℕ)
swap_stack [] = underflow
swap_stack (a ∷ []) = underflow
swap_stack (a ∷ b ∷ s) = ok (b ∷ a ∷ s)

abbrev pub over_stack : ℕ → List ℕ → Result (List ℕ)
over_stack room [] = underflow
over_stack room (a ∷ []) = underflow
over_stack room (a ∷ b ∷ s) = push_own room 1 (a ∷ b ∷ s)

-- The top goes to the third place.
abbrev pub rot_stack : List ℕ → Result (List ℕ)
rot_stack [] = underflow
rot_stack (a ∷ []) = underflow
rot_stack (a ∷ b ∷ []) = underflow
rot_stack (a ∷ b ∷ c ∷ s) = ok (b ∷ c ∷ a ∷ s)
