-- ===== src/Dwarf/Expr/Onward.antt =====
-- What one operation of the evaluator does to the cursor: all but the jumps move it forward inside
-- the section of the expression, or leave it.
use mathlib.Core.Path.{subst}
use libelfin.Prelude.{ℕ, ◌≤◌, ◌≡◌, ap, Bool, true, false, List, [], ◌∷◌, arith, leb}
use libelfin.Result.{
  Result, ok, guard, expr_error, deref_size_exceeds, xderef_size_exceeds, >>=-eq-ok, ok_inj,
}
use libelfin.Dwarf.Cursor.{Cursor, ensure, fixed, uleb128, sleb128, address}
use libelfin.Dwarf.Cursor.Image.{InImage}
use libelfin.Dwarf.Cursor.Progress.{
  Forward, Onward, Onward-refl, Onward-trans, Forward-Onward, fixed-Forward, fixed_signed-Forward,
  uleb128-Forward, sleb128-Forward, address-Forward,
}
use libelfin.Dwarf.Op.{Op, LiteralOp, RegisterOp, StackOp, ArithOp, JumpOp, LocationOp}
use libelfin.Dwarf.Machine.{Context, Machine, push_read, with_stack}
use libelfin.Dwarf.Expr.{
  step_literal, step_register, based, add_signed, step_stack, step_arith, step_rel, step_location,
  literal_result, step_jump, step,
}

-- The cursors of two machines.
abbrev pub Moves : Machine → Machine → Type 0
Moves m m' = Onward m.cur m'.cur

-- The machine may work: its section lies in the image, and its cursor in the section.
pub record IsReady (m : Machine) : Type 0 where
  pub image : InImage m.cur.sec
  pub inside : m.cur.pos ≤ m.cur.sec.end

at_cursor : {a c d : Cursor} → Onward a c → c ≡ d → Onward a d
at_cursor {a} f e = subst (Onward a) e f

push_read-Moves :
    (m : Machine) (r : Result (ℕ × Cursor)) {m' : Machine}
    → ((v : ℕ) (c : Cursor) → r ≡ ok (v, c) → Forward m.cur c)
    → push_read r m ≡ ok m'
    → Moves m m'
push_read-Moves m r h e =
    let ((v, c), read, e1) = >>=-eq-ok r _ e in
    at_cursor (Forward-Onward (h v c read)) (ap (λ (n : Machine). n.cur) (ok_inj e1))

with_stack-Moves :
    (m : Machine) (r : Result (List ℕ)) {m' : Machine} → with_stack m r ≡ ok m' → m.cur ≡ m'.cur
with_stack-Moves m r e =
    let (s, got, e1) = >>=-eq-ok r _ e in ap (λ (n : Machine). n.cur) (ok_inj e1)

-- A stack operation leaves the cursor, also behind an operand.
stay :
    (m : Machine) (r : Result (List ℕ)) {m' : Machine}
    → IsReady m
    → with_stack m r ≡ ok m'
    → Moves m m'
stay m r ready e = at_cursor (Onward-refl ready.inside) (with_stack-Moves m r e)

stay_at :
    (m : Machine) (c : Cursor) (r : Result (List ℕ)) {m' : Machine}
    → Forward m.cur c
    → with_stack (record m { cur = c }) r ≡ ok m'
    → Moves m m'
stay_at m c r f e = at_cursor (Forward-Onward f) (with_stack-Moves (record m { cur = c }) r e)

step_literal-Moves :
    (o : LiteralOp) (m : Machine) {m' : Machine} → IsReady m → step_literal o m ≡ ok m' → Moves m m'
unfolding step_literal
step_literal-Moves (LiteralOp.lit n) m ready e =
    at_cursor (Onward-refl ready.inside) (ap (λ (n : Machine). n.cur) (ok_inj e))
step_literal-Moves LiteralOp.addr m ready e =
    push_read-Moves m (address m.cur) (λ v c r. (address-Forward m.cur ready.image r).0) e
step_literal-Moves LiteralOp.const1u m ready e =
    push_read-Moves m _
      (λ v c r. (fixed-Forward 1 m.cur ready.image (omega arith) (omega arith) r).0) e
step_literal-Moves LiteralOp.const2u m ready e =
    push_read-Moves m _
      (λ v c r. (fixed-Forward 2 m.cur ready.image (omega arith) (omega arith) r).0) e
step_literal-Moves LiteralOp.const4u m ready e =
    push_read-Moves m _
      (λ v c r. (fixed-Forward 4 m.cur ready.image (omega arith) (omega arith) r).0) e
step_literal-Moves LiteralOp.const8u m ready e =
    push_read-Moves m _
      (λ v c r. (fixed-Forward 8 m.cur ready.image (omega arith) (omega arith) r).0) e
step_literal-Moves LiteralOp.const1s m ready e =
    push_read-Moves m _
      (λ v c r. fixed_signed-Forward 1 m.cur ready.image (omega arith) (omega arith) r) e
step_literal-Moves LiteralOp.const2s m ready e =
    push_read-Moves m _
      (λ v c r. fixed_signed-Forward 2 m.cur ready.image (omega arith) (omega arith) r) e
step_literal-Moves LiteralOp.const4s m ready e =
    push_read-Moves m _
      (λ v c r. fixed_signed-Forward 4 m.cur ready.image (omega arith) (omega arith) r) e
step_literal-Moves LiteralOp.const8s m ready e =
    push_read-Moves m _
      (λ v c r. fixed_signed-Forward 8 m.cur ready.image (omega arith) (omega arith) r) e
step_literal-Moves LiteralOp.constu m ready e =
    push_read-Moves m _ (λ v c r. (uleb128-Forward m.cur r).0) e
step_literal-Moves LiteralOp.consts m ready e =
    push_read-Moves m _ (λ v c r. sleb128-Forward m.cur r) e

based-Moves :
    (ctx : Context) (r : ℕ) (m : Machine) {m' : Machine}
    → based ctx r m ≡ ok m'
    → Forward m.cur m'.cur
unfolding based
based-Moves ctx r m e =
    let ((off, c), read, e1) = >>=-eq-ok (sleb128 m.cur) _ e in
    let (base, got, e2) = >>=-eq-ok (ctx.reg _) _ e1 in
    let (sum, added, e3) = >>=-eq-ok (add_signed base off) _ e2 in
    subst (Forward m.cur) (ap (λ (n : Machine). n.cur) (ok_inj e3)) (sleb128-Forward m.cur read)

step_register-Moves :
    (ctx : Context) (o : RegisterOp) (m : Machine) {m' : Machine}
    → step_register ctx o m ≡ ok m'
    → Moves m m'
unfolding step_register
step_register-Moves ctx RegisterOp.fbreg m e = absurd (cc)
step_register-Moves ctx (RegisterOp.breg n) m e = Forward-Onward (based-Moves ctx n m e)
step_register-Moves ctx RegisterOp.bregx m e =
    let ((r, c), read, e1) = >>=-eq-ok (uleb128 m.cur) _ e in
    Onward-trans (Forward-Onward (uleb128-Forward m.cur read).0)
      (Forward-Onward (based-Moves ctx r (record m { cur = c }) e1))

step_stack-Moves :
    (ctx : Context) (o : StackOp) (m : Machine) {m' : Machine}
    → IsReady m
    → step_stack ctx o m ≡ ok m'
    → Moves m m'
unfolding step_stack
step_stack-Moves ctx StackOp.pick m ready e =
    let ((n, c), read, e1) = >>=-eq-ok (fixed 1 m.cur) _ e in
    stay_at m c _ (fixed-Forward 1 m.cur ready.image (omega arith) (omega arith) read).0 e1
step_stack-Moves ctx StackOp.deref_size m ready e =
    let ((n, c), read, e1) = >>=-eq-ok (fixed 1 m.cur) _ e in
    let (u, g, e2) =
      >>=-eq-ok (guard (leb n m.cur.sec.addr_size) (expr_error deref_size_exceeds)) _ e1 in
    stay_at m c _ (fixed-Forward 1 m.cur ready.image (omega arith) (omega arith) read).0 e2
step_stack-Moves ctx StackOp.xderef_size m ready e =
    let ((n, c), read, e1) = >>=-eq-ok (fixed 1 m.cur) _ e in
    let (u, g, e2) =
      >>=-eq-ok (guard (leb n m.cur.sec.addr_size) (expr_error xderef_size_exceeds)) _ e1 in
    stay_at m c _ (fixed-Forward 1 m.cur ready.image (omega arith) (omega arith) read).0 e2
step_stack-Moves ctx StackOp.dup m ready e = stay m _ ready e
step_stack-Moves ctx StackOp.drop m ready e = stay m _ ready e
step_stack-Moves ctx StackOp.over m ready e = stay m _ ready e
step_stack-Moves ctx StackOp.swap m ready e = stay m _ ready e
step_stack-Moves ctx StackOp.rot m ready e = stay m _ ready e
step_stack-Moves ctx StackOp.deref m ready e = stay m _ ready e
step_stack-Moves ctx StackOp.xderef m ready e = stay m _ ready e
step_stack-Moves ctx StackOp.form_tls_address m ready e = stay m _ ready e
step_stack-Moves ctx StackOp.push_object_address m ready e = absurd (cc)
step_stack-Moves ctx StackOp.call_frame_cfa m ready e = absurd (cc)

step_arith-Moves :
    (o : ArithOp) (m : Machine) {m' : Machine} → IsReady m → step_arith o m ≡ ok m' → Moves m m'
unfolding step_arith
step_arith-Moves ArithOp.plus_uconst m ready e =
    let ((n, c), read, e1) = >>=-eq-ok (uleb128 m.cur) _ e in
    stay_at m c _ (uleb128-Forward m.cur read).0 e1
step_arith-Moves _ m ready e = stay m _ ready e

cursor_of : {m m' : Machine} → ok m ≡ ok m' → m.cur ≡ m'.cur
cursor_of e = ap (λ (n : Machine). n.cur) (ok_inj e)

literal_result-Moves :
    (m : Machine) (s : List ℕ) {m' : Machine} → literal_result m s ≡ ok m' → m.cur ≡ m'.cur
literal_result-Moves m [] e = absurd (cc)
literal_result-Moves m (a ∷ s) e = cursor_of e

step_location-Moves :
    (o : LocationOp) (m : Machine) {m' : Machine}
    → IsReady m
    → step_location o m ≡ ok m'
    → Moves m m'
unfolding step_location
step_location-Moves LocationOp.nop m ready e = at_cursor (Onward-refl ready.inside) (cursor_of e)
step_location-Moves (LocationOp.reg n) m ready e =
    at_cursor (Onward-refl ready.inside) (cursor_of e)
step_location-Moves LocationOp.regx m ready e =
    let ((n, c), read, e1) = >>=-eq-ok (uleb128 m.cur) _ e in
    at_cursor (Forward-Onward (uleb128-Forward m.cur read).0) (cursor_of e1)
step_location-Moves LocationOp.implicit_value m ready e =
    let ((n, c), read, e1) = >>=-eq-ok (uleb128 m.cur) _ e in
    let (u, room, e2) = >>=-eq-ok (ensure n c) _ e1 in
    at_cursor (Forward-Onward (uleb128-Forward m.cur read).0) (cursor_of e2)
step_location-Moves LocationOp.stack_value m ready e =
    at_cursor (Onward-refl ready.inside) (literal_result-Moves m m.stack e)
step_location-Moves LocationOp.piece m ready e = absurd (cc)
step_location-Moves LocationOp.bit_piece m ready e = absurd (cc)
step_location-Moves (LocationOp.user v) m ready e = absurd (cc)
step_location-Moves (LocationOp.other v) m ready e = absurd (cc)

-- `skip` and `bra`.
abbrev pub is_branch : Op → Bool
is_branch (Op.jump JumpOp.skip) = true
is_branch (Op.jump JumpOp.bra) = true
is_branch _ = false

pub step-Moves :
    (ctx : Context) (o : Op) (m : Machine) {m' : Machine}
    → IsReady m
    → is_branch o ≡ false
    → step ctx o m ≡ ok m'
    → Moves m m'
unfolding step step_jump step_rel
step-Moves ctx (Op.literal o) m ready h e = step_literal-Moves o m ready e
step-Moves ctx (Op.register o) m ready h e = step_register-Moves ctx o m e
step-Moves ctx (Op.stack o) m ready h e = step_stack-Moves ctx o m ready e
step-Moves ctx (Op.arith o) m ready h e = step_arith-Moves o m ready e
step-Moves ctx (Op.rel o) m ready h e = stay m _ ready e
step-Moves ctx (Op.jump JumpOp.skip) m ready h e = absurd (cc)
step-Moves ctx (Op.jump JumpOp.bra) m ready h e = absurd (cc)
step-Moves ctx (Op.jump _) m ready h e = absurd (cc)
step-Moves ctx (Op.location o) m ready h e = step_location-Moves o m ready e
