-- ===== src/Dwarf/Expr/Ends.antt =====
-- Every operation of the evaluator gives an outcome of its own.
use libelfin.Prelude.{ℕ, List, [], ◌∷◌, arith, leb}
use libelfin.Result.{
  Result, expr_error, deref_size_exceeds, xderef_size_exceeds, Ends, bind-Ends, ok-Ends,
}
use libelfin.Dwarf.Cursor.{Cursor, fixed, fixed_signed, uleb128, sleb128}
use libelfin.Dwarf.Cursor.Ends.{
  fixed-Ends, fixed_signed-Ends, uleb128-Ends, sleb128-Ends, address-Ends, ensure-Ends, guard-Ends,
}
use libelfin.Dwarf.Op.{Op, LiteralOp, RegisterOp, StackOp, ArithOp, JumpOp, LocationOp}
use libelfin.Dwarf.Alu.{unary_value, binary_value}
use libelfin.Dwarf.Machine.{Context, Machine, with_stack, push_read, on_top, on_two, pick_stack}
use libelfin.Dwarf.Expr.{
  step_literal, step_register, based, add_signed, step_stack, step_arith, step_rel, step_jump,
  branch, step_location, literal_result, step,
}

-- The caller's functions give an outcome of their own.
pub record ContextEnds (ctx : Context) : Type 0 where
  pub reg : (r : ℕ) → Ends (ctx.reg r)
  pub deref_size : (a n : ℕ) → Ends (ctx.deref_size a n)
  pub xderef_size : (a b n : ℕ) → Ends (ctx.xderef_size a b n)
  pub form_tls_address : (a : ℕ) → Ends (ctx.form_tls_address a)

push_read-Ends : (m : Machine) (r : Result (ℕ × Cursor)) → Ends r → Ends (push_read r m)
push_read-Ends m r h = bind-Ends r _ h λ a e. ok-Ends _

with_stack-Ends : (m : Machine) (r : Result (List ℕ)) → Ends r → Ends (with_stack m r)
with_stack-Ends m r h = bind-Ends r _ h λ a e. ok-Ends _

on_top-Ends : (f : ℕ → Result ℕ) (s : List ℕ) → ((a : ℕ) → Ends (f a)) → Ends (on_top f s)
on_top-Ends f [] h = λ e. cc
on_top-Ends f (a ∷ s) h = bind-Ends (f a) _ (h a) λ v e. ok-Ends _

on_two-Ends : (f : ℕ → ℕ → Result ℕ) (s : List ℕ) → ((a b : ℕ) → Ends (f a b)) → Ends (on_two f s)
on_two-Ends f [] h = λ e. cc
on_two-Ends f (a ∷ []) h = λ e. cc
on_two-Ends f (a ∷ b ∷ s) h = bind-Ends (f a b) _ (h a b) λ v e. ok-Ends _

step_literal-Ends : (o : LiteralOp) (m : Machine) → Ends (step_literal o m)
unfolding step_literal
step_literal-Ends (LiteralOp.lit n) m = ok-Ends _
step_literal-Ends LiteralOp.addr m = push_read-Ends m _ (address-Ends m.cur)
step_literal-Ends LiteralOp.const1u m = push_read-Ends m _ (fixed-Ends 1 m.cur)
step_literal-Ends LiteralOp.const2u m = push_read-Ends m _ (fixed-Ends 2 m.cur)
step_literal-Ends LiteralOp.const4u m = push_read-Ends m _ (fixed-Ends 4 m.cur)
step_literal-Ends LiteralOp.const8u m = push_read-Ends m _ (fixed-Ends 8 m.cur)
step_literal-Ends LiteralOp.const1s m = push_read-Ends m _ (fixed_signed-Ends 1 m.cur)
step_literal-Ends LiteralOp.const2s m = push_read-Ends m _ (fixed_signed-Ends 2 m.cur)
step_literal-Ends LiteralOp.const4s m = push_read-Ends m _ (fixed_signed-Ends 4 m.cur)
step_literal-Ends LiteralOp.const8s m = push_read-Ends m _ (fixed_signed-Ends 8 m.cur)
step_literal-Ends LiteralOp.constu m = push_read-Ends m _ (uleb128-Ends m.cur)
step_literal-Ends LiteralOp.consts m = push_read-Ends m _ (sleb128-Ends m.cur)

based-Ends : (ctx : Context) (r : ℕ) (m : Machine) → ContextEnds ctx → Ends (based ctx r m)
unfolding based add_signed
based-Ends ctx r m h = bind-Ends (sleb128 m.cur) _ (sleb128-Ends m.cur) λ a e.
    bind-Ends (ctx.reg _) _ (h.reg _)
      λ base e'. bind-Ends (add_signed base a.0) _ (ground arith) λ sum e''. ok-Ends _

step_register-Ends :
    (ctx : Context) (o : RegisterOp) (m : Machine) → ContextEnds ctx → Ends (step_register ctx o m)
unfolding step_register
step_register-Ends ctx RegisterOp.fbreg m h = λ e. cc
step_register-Ends ctx (RegisterOp.breg n) m h = based-Ends ctx n m h
step_register-Ends ctx RegisterOp.bregx m h =
    bind-Ends (uleb128 m.cur) _ (uleb128-Ends m.cur) λ a e. based-Ends ctx a.0 _ h

pick_stack-Ends : (room n : ℕ) (s : List ℕ) → Ends (pick_stack room n s)
pick_stack-Ends room n s = ground arith

plain_stack-Ends :
    (o : StackOp) (ctx : Context) (m : Machine) → ContextEnds ctx → Ends (step_stack ctx o m)
unfolding step_stack
plain_stack-Ends StackOp.deref ctx m h =
    with_stack-Ends m _ (on_top-Ends _ m.stack λ a. h.deref_size a _)
plain_stack-Ends StackOp.xderef ctx m h =
    with_stack-Ends m _ (on_two-Ends _ m.stack λ a b. h.xderef_size a b _)
plain_stack-Ends StackOp.form_tls_address ctx m h =
    with_stack-Ends m _ (on_top-Ends _ m.stack h.form_tls_address)
plain_stack-Ends StackOp.pick ctx m h =
    bind-Ends (fixed 1 m.cur) _ (fixed-Ends 1 m.cur)
      λ a e. with_stack-Ends (record m { cur = a.1 }) _ (pick_stack-Ends m.room a.0 m.stack)
plain_stack-Ends StackOp.deref_size ctx m h =
    bind-Ends (fixed 1 m.cur) _ (fixed-Ends 1 m.cur) λ a e.
      bind-Ends _ _
        (guard-Ends (leb a.0 m.cur.sec.addr_size) (expr_error deref_size_exceeds) (λ p. cc))
        λ u e'.
          with_stack-Ends (record m { cur = a.1 }) _ (on_top-Ends _ m.stack λ v. h.deref_size v _)
plain_stack-Ends StackOp.xderef_size ctx m h =
    bind-Ends (fixed 1 m.cur) _ (fixed-Ends 1 m.cur) λ a e.
      bind-Ends _ _
        (guard-Ends (leb a.0 m.cur.sec.addr_size) (expr_error xderef_size_exceeds) (λ p. cc))
        λ u e'.
          with_stack-Ends (record m { cur = a.1 }) _
            (on_two-Ends _ m.stack λ v w. h.xderef_size v w _)
plain_stack-Ends StackOp.push_object_address ctx m h = λ e. cc
plain_stack-Ends StackOp.call_frame_cfa ctx m h = λ e. cc
plain_stack-Ends StackOp.dup ctx m h = with_stack-Ends m _ (ground arith)
plain_stack-Ends StackOp.drop ctx m h = with_stack-Ends m _ (ground arith)
plain_stack-Ends StackOp.over ctx m h = with_stack-Ends m _ (ground arith)
plain_stack-Ends StackOp.swap ctx m h = with_stack-Ends m _ (ground arith)
plain_stack-Ends StackOp.rot ctx m h = with_stack-Ends m _ (ground arith)

unary_value-Ends : (o : ArithOp) (a : ℕ) → Ends (unary_value o a)
unfolding unary_value
unary_value-Ends ArithOp.abs a = ground arith
unary_value-Ends _ a = ground arith

binary_value-Ends : (o : ArithOp) (a b : ℕ) → Ends (binary_value o a b)
unfolding binary_value
binary_value-Ends ArithOp.div a b = ground arith
binary_value-Ends ArithOp.mod_ a b = ground arith
binary_value-Ends ArithOp.shra a b = ground arith
binary_value-Ends _ a b = λ e. cc

step_arith-Ends : (o : ArithOp) (m : Machine) → Ends (step_arith o m)
unfolding step_arith
step_arith-Ends ArithOp.abs m =
    with_stack-Ends m _ (on_top-Ends _ m.stack (unary_value-Ends ArithOp.abs))
step_arith-Ends ArithOp.neg m =
    with_stack-Ends m _ (on_top-Ends _ m.stack (unary_value-Ends ArithOp.neg))
step_arith-Ends ArithOp.not_ m =
    with_stack-Ends m _ (on_top-Ends _ m.stack (unary_value-Ends ArithOp.not_))
step_arith-Ends ArithOp.plus_uconst m =
    bind-Ends (uleb128 m.cur) _ (uleb128-Ends m.cur)
      λ a e. with_stack-Ends (record m { cur = a.1 }) _ (on_top-Ends _ m.stack λ v. ok-Ends _)
step_arith-Ends o m = with_stack-Ends m _ (on_two-Ends _ m.stack (binary_value-Ends _))

branch-Ends : (n : ℕ) (m : Machine) (s : List ℕ) → Ends (branch n m s)
branch-Ends n m [] = λ e. cc
branch-Ends n m (a ∷ s) = ok-Ends _

step_jump-Ends : (o : JumpOp) (m : Machine) → Ends (step_jump o m)
unfolding step_jump
step_jump-Ends JumpOp.skip m =
    bind-Ends (fixed_signed 2 m.cur) _ (fixed_signed-Ends 2 m.cur) λ a e. ok-Ends _
step_jump-Ends JumpOp.bra m =
    bind-Ends (fixed_signed 2 m.cur) _ (fixed_signed-Ends 2 m.cur)
      λ a e. branch-Ends a.0 (record m { cur = a.1 }) m.stack
step_jump-Ends _ m = λ e. cc

literal_result-Ends : (m : Machine) (s : List ℕ) → Ends (literal_result m s)
literal_result-Ends m [] = λ e. cc
literal_result-Ends m (a ∷ s) = ok-Ends _

step_location-Ends : (o : LocationOp) (m : Machine) → Ends (step_location o m)
unfolding step_location
step_location-Ends LocationOp.regx m =
    bind-Ends (uleb128 m.cur) _ (uleb128-Ends m.cur) λ a e. ok-Ends _
step_location-Ends LocationOp.implicit_value m =
    bind-Ends (uleb128 m.cur) _ (uleb128-Ends m.cur)
      λ a e. bind-Ends _ _ (ensure-Ends a.0 a.1) λ u e'. ok-Ends _
step_location-Ends LocationOp.stack_value m = literal_result-Ends m m.stack
step_location-Ends _ m = λ e. cc

pub step-Ends : (ctx : Context) (o : Op) (m : Machine) → ContextEnds ctx → Ends (step ctx o m)
unfolding step step_rel
step-Ends ctx (Op.literal o) m h = step_literal-Ends o m
step-Ends ctx (Op.register o) m h = step_register-Ends ctx o m h
step-Ends ctx (Op.stack o) m h = plain_stack-Ends o ctx m h
step-Ends ctx (Op.arith o) m h = step_arith-Ends o m
step-Ends ctx (Op.rel o) m h = with_stack-Ends m _ (on_two-Ends _ m.stack λ a b. ok-Ends _)
step-Ends ctx (Op.jump o) m h = step_jump-Ends o m
step-Ends ctx (Op.location o) m h = step_location-Ends o m
