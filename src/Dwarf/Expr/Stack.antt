-- ===== src/Dwarf/Expr/Stack.antt =====
-- The stack of the evaluator: depth, underflow, and the operations that only move entries.
use native.Mathlib.Decide.{dec_lt}
use libelfin.Word.{add64}
use libelfin.Prelude.{
  ℕ, ◌+◌, ◌≤◌, ◌<◌, ◌≡◌, ◌≢◌, ap, ◌∙◌, false, some, List, [], ◌∷◌, arith, length, get_elem?,
  get_elem?_ge, get_elem?_lt, ◌⊎◌, inl, inr, lt→ltb, le→not_ltb, lt→not_leb, le→leb, leb, ltb, ◌==◌,
  ==_iff, Bool-cases, true, none,
}
use libelfin.Result.{Result, ok, err, undefined, >>=-eq-ok, ok_inj}
use libelfin.Dwarf.Cursor.{at_end, uleb128, ensure}
use libelfin.Dwarf.Op.{ArithOp, LocationOp}
use libelfin.Dwarf.Machine.{Machine, underflow, with_stack, on_top, on_two, pick_stack}
use libelfin.Dwarf.Expr.{step_arith, step_location}

-- How many entries an arithmetic operation takes.
abbrev pub arity : ArithOp → ℕ
arity ArithOp.abs = 1
arity ArithOp.neg = 1
arity ArithOp.not_ = 1
arity ArithOp.plus_uconst = 1
arity _ = 2

on_top-length :
    (f : ℕ → Result ℕ) (s : List ℕ) {t : List ℕ}
    → on_top f s ≡ ok t
    → (length t ≡ length s) × (1 ≤ length s)
on_top-length f [] e = absurd (cc)
on_top-length f (a ∷ s) {t} e =
    let (v, got, e1) = >>=-eq-ok (f a) _ e in let same = ap length (ok_inj e1) in omega arith

on_two-length :
    (f : ℕ → ℕ → Result ℕ) (s : List ℕ) {t : List ℕ}
    → on_two f s ≡ ok t
    → (length t + 1 ≡ length s) × (2 ≤ length s)
on_two-length f [] e = absurd (cc)
on_two-length f (a ∷ []) e = absurd (cc)
on_two-length f (a ∷ b ∷ s) {t} e =
    let (v, got, e1) = >>=-eq-ok (f a b) _ e in let same = ap length (ok_inj e1) in omega arith

with_stack-length :
    (m : Machine) (r : Result (List ℕ)) {m' : Machine} → with_stack m r ≡ ok m' → r ≡ ok m'.stack
with_stack-length m r e =
    let (s, got, e1) = >>=-eq-ok r _ e in got ∙ ap (λ (n : Machine). ok n.stack) (ok_inj e1)

-- An arithmetic operation that succeeds found its operands, and leaves one entry in their place.
pub step_arith_depth :
    (o : ArithOp) (m : Machine) {m' : Machine}
    → step_arith o m ≡ ok m'
    → (arity o ≤ length m.stack) × (length m'.stack + arity o ≡ length m.stack + 1)
unfolding step_arith
step_arith_depth ArithOp.abs m e =
    let h = on_top-length _ m.stack (with_stack-length m _ e) in omega arith
step_arith_depth ArithOp.neg m e =
    let h = on_top-length _ m.stack (with_stack-length m _ e) in omega arith
step_arith_depth ArithOp.not_ m e =
    let h = on_top-length _ m.stack (with_stack-length m _ e) in omega arith
step_arith_depth ArithOp.plus_uconst m e =
    let ((n, c), read, e1) = >>=-eq-ok (uleb128 m.cur) _ e in
    let h =
      on_top-length (λ a. ok (add64 a n)) m.stack (with_stack-length (record m { cur = c }) _ e1) in
    omega arith
step_arith_depth _ m e = let h = on_two-length _ m.stack (with_stack-length m _ e) in omega arith

-- `pick` on each stack. Where the operand is larger than the stack it reports the underflow; where
-- it is the size of the stack the check passes, and the entry below the bottom is read. An operand
-- below the size copies the entry at that depth, unless the stack fills all its places and these
-- are no longer the 8 inside: then the entry is read in memory that was just freed.
pub pick_stack_cases :
    (room n : ℕ) (s : List ℕ)
    → ((length s < n) × (pick_stack room n s ≡ underflow))
      ⊎ ((n ≡ length s) × (pick_stack room n s ≡ err undefined))
      ⊎ ((n < length s) × (room ≤ length s) × (room ≢ 8) × (pick_stack room n s ≡ err undefined))
      ⊎ ((v : ℕ) × ((length s < room) ⊎ (room ≡ 8))
          × (get_elem? s n ≡ some v)
          × (pick_stack room n s ≡ ok (v ∷ s)))
pick_stack_cases room n s = elim (dec_lt n (length s)) [
  | no above ↦ elim (dec_lt (length s) n) [
    | yes far ↦ inl (far, rw (lt→ltb (length s) n far))
    | no near ↦
        let missing : get_elem? s n ≡ none = get_elem?_ge s n (omega arith) in
        inr (inl (omega arith, ground (arith, missing)))
  ]
  | yes below ↦
      let (v, found) = get_elem?_lt s n below in
      let checked : ltb (length s) n ≡ false = le→not_ltb (length s) n (omega arith) in
      elim (dec_lt (length s) room) [
        | yes free ↦
            let short : leb room (length s) ≡ false = lt→not_leb room (length s) free in
            inr (inr (inr (v, inl free, found, rw (checked, short, found))))
        | no full ↦
            let tight : leb room (length s) ≡ true = le→leb room (length s) (omega arith) in
            elim (Bool-cases (room == 8)) [
              | inl buffer ↦ inr (
                  inr (
                    inr (
                      v,
                      inr ((==_iff room 8).0 buffer),
                      found,
                      rw (checked, tight, buffer, found),
                    )))
              | inr moved ↦
                  let other : room ≢ 8 = λ e. absurd (let is = (==_iff room 8).1 e in cc) in
                  inr (inr (inl (below, omega arith, other, rw (checked, tight, moved))))
            ]
      ]
]

-- DW_OP_implicit_value of a block that is not empty stops at the first byte of the block, so that
-- the loop goes on and takes the block for operations.
pub implicit_runs_on :
    (m : Machine) {m' : Machine}
    → step_location LocationOp.implicit_value m ≡ ok m'
    → (m'.result.implicit ≡ some m'.cur.pos) × (at_end m'.cur ≡ false)
unfolding step_location ensure
implicit_runs_on m e =
    let ((n, c), read, e1) = >>=-eq-ok (uleb128 m.cur) _ e in
    let (u, room, e2) = >>=-eq-ok (ensure n c) _ e1 in ground (arith, room, e2)
