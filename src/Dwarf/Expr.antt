-- ===== src/Dwarf/Expr.antt =====
-- dwarf/expr.cc: the evaluator of DWARF expressions, `expr::evaluate`.
pub mod Onward
pub mod Ends
pub mod Total
pub mod Stack
pub mod Memory
use libelfin.Prelude.{
  ℕ, zero, suc, ◌%◌, ◌^◌, true, false, Option, none, some, List, [], ◌∷◌, length, leb, ◌==◌,
  if◌then◌else◌,
}
use libelfin.Result.{
  Result, ok, err, undefined, out_of_fuel, expr_error, runtime_error, final_stack_empty,
  deref_size_exceeds, xderef_size_exceeds, not_implemented, bad_operation, unknown_user_op, guard,
  ◌>>=◌, ◌>>◌,
}
use libelfin.Word.{add64, is_negative}
use libelfin.Dwarf.Section.{Section, ptr_add}
use libelfin.Dwarf.Cursor.{
  Cursor, cursor_at, at_end, get_section_offset, ensure, fixed, fixed_signed, uleb128, sleb128,
  address,
}
use libelfin.Dwarf.Op.{
  Op, LiteralOp, RegisterOp, StackOp, ArithOp, RelOp, JumpOp, LocationOp, op_of,
}
use libelfin.Dwarf.Machine.{
  Context, LocationType, ExprResult, Machine, underflow, push_read, set_stack, on_top, on_two,
  with_stack, dup_stack, drop_stack, pick_stack, swap_stack, over_stack, rot_stack, room_for,
}
use libelfin.Dwarf.Alu.{unary_value, binary_value, relation_value}

-- 2.5.1.1
unfoldable pub step_literal : LiteralOp → Machine → Result Machine
step_literal (LiteralOp.lit n) m = ok (set_stack m (n ∷ m.stack))
step_literal LiteralOp.addr m = push_read (address m.cur) m
step_literal LiteralOp.const1u m = push_read (fixed 1 m.cur) m
step_literal LiteralOp.const2u m = push_read (fixed 2 m.cur) m
step_literal LiteralOp.const4u m = push_read (fixed 4 m.cur) m
step_literal LiteralOp.const8u m = push_read (fixed 8 m.cur) m
step_literal LiteralOp.const1s m = push_read (fixed_signed 1 m.cur) m
step_literal LiteralOp.const2s m = push_read (fixed_signed 2 m.cur) m
step_literal LiteralOp.const4s m = push_read (fixed_signed 4 m.cur) m
step_literal LiteralOp.const8s m = push_read (fixed_signed 8 m.cur) m
step_literal LiteralOp.constu m = push_read (uleb128 m.cur) m
step_literal LiteralOp.consts m = push_read (sleb128 m.cur) m

-- `(int64_t)a + b`: undefined where the sum of two numbers of one sign has the other.
unfoldable pub add_signed : ℕ → ℕ → Result ℕ
add_signed a b =
    let sum = add64 a b in
    if is_negative a
    then (if is_negative b then (if is_negative sum then ok sum else err undefined) else ok sum)
    else (if is_negative b then ok sum else (if is_negative sum then err undefined else ok sum))

-- 2.5.1.2: `ctx->reg` takes an unsigned int.
based : Context → ℕ → Machine → Result Machine
unfolding add_signed
based ctx r m = do
  (off, c) ← sleb128 m.cur
  base ← ctx.reg (r % 2 ^ 32)
  sum ← add_signed base off
  ok (set_stack (record m { cur = c }) (sum ∷ m.stack))

unfoldable pub step_register : Context → RegisterOp → Machine → Result Machine
unfolding based
step_register ctx RegisterOp.fbreg m = err (runtime_error (not_implemented 0x91))
step_register ctx (RegisterOp.breg n) m = based ctx n m
step_register ctx RegisterOp.bregx m = do (r, c) ← uleb128 m.cur; based ctx r (record m { cur = c })

-- 2.5.1.3
unfoldable pub step_stack : Context → StackOp → Machine → Result Machine
step_stack ctx StackOp.dup m = with_stack m (dup_stack m.room m.stack)
step_stack ctx StackOp.drop m = with_stack m (drop_stack m.stack)
step_stack ctx StackOp.pick m = do
  (n, c) ← fixed 1 m.cur
  with_stack (record m { cur = c }) (pick_stack m.room n m.stack)
step_stack ctx StackOp.over m = with_stack m (over_stack m.room m.stack)
step_stack ctx StackOp.swap m = with_stack m (swap_stack m.stack)
step_stack ctx StackOp.rot m = with_stack m (rot_stack m.stack)
step_stack ctx StackOp.deref m =
    with_stack m (on_top (λ a. ctx.deref_size a m.cur.sec.addr_size) m.stack)
step_stack ctx StackOp.deref_size m = do
  (n, c) ← fixed 1 m.cur
  guard (leb n m.cur.sec.addr_size) (expr_error deref_size_exceeds)
  with_stack (record m { cur = c }) (on_top (λ a. ctx.deref_size a n) m.stack)
step_stack ctx StackOp.xderef m =
    with_stack m (on_two (λ a b. ctx.xderef_size a b m.cur.sec.addr_size) m.stack)
step_stack ctx StackOp.xderef_size m = do
  (n, c) ← fixed 1 m.cur
  guard (leb n m.cur.sec.addr_size) (expr_error xderef_size_exceeds)
  with_stack (record m { cur = c }) (on_two (λ a b. ctx.xderef_size a b n) m.stack)
step_stack ctx StackOp.push_object_address m = err (runtime_error (not_implemented 0x97))
step_stack ctx StackOp.form_tls_address m = with_stack m (on_top ctx.form_tls_address m.stack)
step_stack ctx StackOp.call_frame_cfa m = err (runtime_error (not_implemented 0x9c))

-- 2.5.1.4
unfoldable pub step_arith : ArithOp → Machine → Result Machine
step_arith ArithOp.abs m = with_stack m (on_top (unary_value ArithOp.abs) m.stack)
step_arith ArithOp.neg m = with_stack m (on_top (unary_value ArithOp.neg) m.stack)
step_arith ArithOp.not_ m = with_stack m (on_top (unary_value ArithOp.not_) m.stack)
step_arith ArithOp.plus_uconst m = do
  (n, c) ← uleb128 m.cur
  with_stack (record m { cur = c }) (on_top (λ a. ok (add64 a n)) m.stack)
step_arith op m = with_stack m (on_two (binary_value op) m.stack)

-- 2.5.1.5
unfoldable pub step_rel : RelOp → Machine → Result Machine
step_rel op m = with_stack m (on_two (λ a b. ok (relation_value op a b)) m.stack)

-- `cur = cursor(subsec, (int64_t)cur.get_section_offset() + tmp1.s);`
abbrev pub jump_by : ℕ → Cursor → Cursor
jump_by n c = cursor_at c.sec (add64 (get_section_offset c) n)

abbrev pub branch : ℕ → Machine → List ℕ → Result Machine
branch n m [] = underflow
branch n m (a ∷ s) = ok (record m { cur = if a == 0 then m.cur else jump_by n m.cur; stack = s })

unfoldable pub step_jump : JumpOp → Machine → Result Machine
step_jump JumpOp.skip m = do (n, c) ← fixed_signed 2 m.cur; ok (record m { cur = jump_by n c })
step_jump JumpOp.bra m = do (n, c) ← fixed_signed 2 m.cur; branch n (record m { cur = c }) m.stack
step_jump JumpOp.call2 m = err (runtime_error (not_implemented 0x98))
step_jump JumpOp.call4 m = err (runtime_error (not_implemented 0x99))
step_jump JumpOp.call_ref m = err (runtime_error (not_implemented 0x9a))

abbrev pub literal_result : Machine → List ℕ → Result Machine
literal_result m [] = underflow
literal_result m (a ∷ s) =
    ok (record m {
      result = record m.result { location_type = LocationType.literal; value = some a };
    })

abbrev pub register_result : ℕ → Machine → Machine
register_result n m = record m {
  result = record m.result { location_type = LocationType.reg; value = some n };
}

-- 2.5.1.6 and 2.6.1: `implicit_value` leaves the cursor at the first byte of its block.
unfoldable pub step_location : LocationOp → Machine → Result Machine
step_location LocationOp.nop m = ok m
step_location (LocationOp.reg n) m = ok (register_result n m)
step_location LocationOp.regx m = do
  (n, c) ← uleb128 m.cur
  ok (register_result n (record m { cur = c }))
step_location LocationOp.implicit_value m = do
  (n, c) ← uleb128 m.cur
  ensure n c
  ok (record m {
    cur = c;
    result = record m.result {
      location_type = LocationType.implicit_;
      implicit = some c.pos;
      implicit_len = some n;
    };
  })
step_location LocationOp.stack_value m = literal_result m m.stack
step_location LocationOp.piece m = err (runtime_error (not_implemented 0x93))
step_location LocationOp.bit_piece m = err (runtime_error (not_implemented 0x9d))
step_location (LocationOp.user v) m = err (expr_error (unknown_user_op v))
step_location (LocationOp.other v) m = err (expr_error (bad_operation v))

unfoldable pub step : Context → Op → Machine → Result Machine
step ctx (Op.literal o) m = step_literal o m
step ctx (Op.register o) m = step_register ctx o m
step ctx (Op.stack o) m = step_stack ctx o m
step ctx (Op.arith o) m = step_arith o m
step ctx (Op.rel o) m = step_rel o m
step ctx (Op.jump o) m = step_jump o m
step ctx (Op.location o) m = step_location o m

-- One round of the loop: the operation is read and executed.
unfoldable pub round : Context → Machine → Result Machine
round ctx m = do (v, c) ← fixed 1 m.cur; step ctx (op_of v) (record m { cur = c })

-- `while (!cur.end())`, with the rounds that are granted.
unfoldable pub run : ℕ → Context → Machine → Result Machine
run zero ctx m = if at_end m.cur then ok m else err out_of_fuel
run (suc fuel) ctx m = elim (at_end m.cur) [
  | true ↦ ok m
  | false ↦ do m' ← round ctx m; run fuel ctx m'
]

-- The result of a machine that has stopped.
abbrev pub top_result : ExprResult → List ℕ → Result ExprResult
top_result r [] = err (expr_error final_stack_empty)
top_result r (a ∷ s) = ok (record r { value = some a })

abbrev pub finish_at : LocationType → Machine → Result ExprResult
finish_at LocationType.address_ m = top_result m.result m.stack
finish_at _ m = ok m.result

abbrev pub finish : Machine → Result ExprResult
finish m = finish_at m.result.location_type m

abbrev pub fresh_result : LocationType → Option ℕ → ExprResult
fresh_result t v = record { location_type = t; value = v; implicit = none; implicit_len = none }

-- The section of the expression alone.
abbrev pub expr_section : Section → ℕ → ℕ → Section
expr_section data_ offset len = record data_ {
  begin = ptr_add data_.begin offset;
  end = ptr_add (ptr_add data_.begin offset) len;
}

abbrev pub initial : Section → List ℕ → Machine
initial subsec arguments = record {
  cur = cursor_at subsec 0;
  stack = arguments;
  room = room_for 64 (length arguments) 8;
  result = fresh_result LocationType.address_ none;
}

-- The first argument is the top of the stack.
unfoldable pub evaluate : ℕ → Context → Section → ℕ → ℕ → List ℕ → Result ExprResult
evaluate fuel ctx data_ offset len arguments =
    let m = initial (expr_section data_ offset len) arguments in
    if at_end m.cur
    then ok (fresh_result LocationType.empty (some 0))
    else (do m' ← run fuel ctx m; finish m')
