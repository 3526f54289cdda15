-- ===== src/Tests/Exprs.antt =====
-- The evaluator of expressions.
use libelfin.Prelude.{
  ◌≤◌, true, ℕ, ◌<◌, ◌≡◌, ◌≢◌, refl, ◌⊎◌, ◌==◌, false, some, none, List, [], ◌∷◌, arith,
  All-get_elem?, get_elem?,
}
use libelfin.Result.{ok, err, Ends, undefined, out_of_fuel}
use libelfin.Dwarf.Section.{lsb}
use libelfin.Dwarf.Cursor.{read_byte, ensure, fixed, fixed_lsb, fixed_signed, uleb128, uleb128_loop}
use libelfin.Dwarf.Cursor.Image.{InImage}
use libelfin.Dwarf.Op.{op_of, ArithOp, RelOp, LocationOp}
use libelfin.Dwarf.Machine.{Machine, LocationType, underflow, pick_stack}
use libelfin.Dwarf.Alu.{binary_value, relation_value}
use libelfin.Dwarf.Alu.Relation.{relation_value-right_at, holds, truth}
use libelfin.Dwarf.Alu.Divide.{signed, div_swapped}
use libelfin.Dwarf.Expr.{
  step_literal, step_arith, step_jump, step_location, step, round, run, evaluate, expr_section,
}
use libelfin.Dwarf.Expr.Ends.{ContextEnds}
use libelfin.Dwarf.Expr.Stack.{pick_stack_cases}
use libelfin.Dwarf.Expr.Total.{evaluate-Ends, HasNoJump}
use libelfin.Tests.Data.{section_of, cursor_in, registers, machine_in}

-- lit7, const1u 5, plus
abbrev sum_expr : List ℕ
sum_expr = 0x37 ∷ 0x08 ∷ 0x05 ∷ 0x22 ∷ []

sum_expr_value :
    evaluate 4 registers (section_of lsb sum_expr) 0 4 []
    ≡ ok (record {
      location_type = LocationType.address_;
      value = some 12;
      implicit = none;
      implicit_len = none;
    })
unfolding evaluate run round step op_of step_literal step_arith fixed ensure fixed_lsb read_byte
    binary_value
sum_expr_value = refl

sum_expr-InImage : InImage (section_of lsb sum_expr)
sum_expr-InImage = omega arith

registers-ContextEnds : ContextEnds registers
registers-ContextEnds = record {
  reg = λ r. (λ e. cc);
  deref_size = λ a n. (λ e. cc);
  xderef_size = λ a b n. (λ e. cc);
  form_tls_address = λ a. (λ e. cc);
}

sum_expr-HasNoJump : HasNoJump (expr_section (section_of lsb sum_expr) 0 4)
sum_expr-HasNoJump p v from to at_p =
    All-get_elem? (λ b. (b ≢ 0x2f) × (b ≢ 0x28)) sum_expr p (omega arith) at_p

evaluate-Ends_example : Ends (evaluate 4 registers (section_of lsb sum_expr) 0 4 (9 ∷ []))
evaluate-Ends_example =
    evaluate-Ends 4 registers (section_of lsb sum_expr) 0 4 (9 ∷ []) registers-ContextEnds
      sum_expr-InImage (omega arith) sum_expr-HasNoJump (omega arith)

-- `skip` by -3 goes round for ever: here for a hundred rounds.
endless : evaluate 100 registers (section_of lsb (0x2f ∷ 0xfd ∷ 0xff ∷ [])) 0 3 [] ≡ err out_of_fuel
unfolding evaluate run round step op_of step_jump fixed_signed fixed ensure fixed_lsb read_byte
endless = refl

plus_runs :
    step_arith ArithOp.plus (machine_in lsb [] (2 ∷ 3 ∷ 4 ∷ []))
    ≡ ok (machine_in lsb [] (5 ∷ 4 ∷ []))
unfolding step_arith binary_value
plus_runs = refl

-- Sixteen entries, in as many places.
abbrev full_stack : List ℕ
full_stack = 7 ∷ 8 ∷ 0 ∷ 0 ∷ 0 ∷ 0 ∷ 0 ∷ 0 ∷ 0 ∷ 0 ∷ 0 ∷ 0 ∷ 0 ∷ 0 ∷ 0 ∷ 0 ∷ []

pick_stack_cases_example :
    ((16 < 1) × (pick_stack 16 1 full_stack ≡ underflow))
    ⊎ ((◌≡◌ {A = ℕ} 1 16) × (pick_stack 16 1 full_stack ≡ err undefined))
    ⊎ ((1 < 16) × (16 ≤ 16) × (◌≢◌ {A = ℕ} 16 8) × (pick_stack 16 1 full_stack ≡ err undefined))
    ⊎ ((v : ℕ) × ((16 < 16) ⊎ (◌≡◌ {A = ℕ} 16 8))
        × (get_elem? full_stack 1 ≡ some v)
        × (pick_stack 16 1 full_stack ≡ ok (v ∷ full_stack)))
pick_stack_cases_example = pick_stack_cases 16 1 full_stack

-- The operand of implicit_value: a block of two bytes.
abbrev block_expr : List ℕ
block_expr = 0x02 ∷ 0x30 ∷ 0x31 ∷ []

abbrev block_after : Machine
block_after = record (machine_in lsb block_expr []) {
  cur = cursor_in lsb block_expr 1;
  result = record {
    location_type = LocationType.implicit_;
    value = none;
    implicit = some 1;
    implicit_len = some 2;
  };
}

block_runs : step_location LocationOp.implicit_value (machine_in lsb block_expr []) ≡ ok block_after
unfolding step_location uleb128 uleb128_loop read_byte ensure
block_runs = refl

relation_value-right_at_example :
    (relation_value RelOp.gt 3 5 == truth (holds RelOp.gt 3 5)) ≡ false
relation_value-right_at_example = relation_value-right_at RelOp.gt 3 5 (omega arith) (omega arith)

-- 13 divided by -3.
div_swapped_example :
    (binary_value ArithOp.div 13 (signed true 3) ≡ ok (signed true 4))
    × (0 < 13 → ◌≢◌ {A = ℕ} 13 3 → binary_value ArithOp.div 13 (signed true 3) ≢ ok (signed true 0))
    × (binary_value ArithOp.div 13 0 ≡ err undefined)
div_swapped_example = div_swapped false true 13 3 (omega arith) (omega arith) (omega arith)
