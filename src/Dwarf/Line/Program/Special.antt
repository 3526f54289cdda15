-- ===== src/Dwarf/Line/Program/Special.antt =====
-- dwarf/line.cc: the arithmetic of the special opcodes (DWARF4 section 6.2.5.1), and
-- `const_add_pc`.
use native.Mathlib.Nat.{
  mod-eq_of_lt, div-le_self, mul-le-mul, add-mul-div_left, add-mul-mod_self_left, div-eq_of_lt,
}
use libelfin.Prelude.{
  ℕ, ◌+◌, ◌-◌, ◌*◌, ◌/◌, ◌%◌, ◌^◌, ◌≤◌, ◌<◌, ◌≡◌, ap, ◌∙◌, true, false, arith, some, leb, le→leb,
}
use libelfin.Result.{ok}
use libelfin.Word.{u64_mod, add64}
use libelfin.Dwarf.Cursor.{Cursor, fixed}
use libelfin.Dwarf.Cursor.Progress.{fixed-Forward}
use libelfin.Dwarf.Line.{Row, Table}
use libelfin.Dwarf.Line.Program.{
  Lns, State, u32_mod, advance_ops, after_row, add_line, step_special, step_standard, step,
}
use libelfin.Dwarf.Line.Program.Ready.{IsReady}

-- The bytes of the header, and its two divisors.
pub record IsHeader (t : Table) : Type 0 where
  pub minimum_length : t.minimum_instruction_length < 256
  pub operations : t.maximum_operations < 256
  pub line_range : 0 < t.line_range
  pub opcode_base : t.opcode_base < 256

-- The standard's advance, without the wrap-around of the intermediate words.
abbrev pub advanced : Table → ℕ → Row → Row
advanced t ops r = record r {
  address =
      add64 r.address (t.minimum_instruction_length * ((r.op_index + ops) / t.maximum_operations));
  op_index = (r.op_index + ops) % t.maximum_operations;
}

small_advance :
    (t : Table) (ops : ℕ) (r : Row)
    → IsHeader t
    → r.op_index < t.maximum_operations
    → ops < 256
    → t.minimum_instruction_length * ((r.op_index + ops) / t.maximum_operations) ≤ 255 * 510
small_advance t ops r h below few =
    let m = h.minimum_length in
    let o = h.operations in
    mul-le-mul {n₂ = 255} {m₂ = 510} (omega arith)
      (omega (arith, div-le_self (r.op_index + ops) t.maximum_operations))

advance_ops-advanced :
    (w : ℕ) (t : Table) (ops : ℕ) (r : Row)
    → 0x1_0000_0000 ≤ w
    → IsHeader t
    → r.op_index < t.maximum_operations
    → ops < 256
    → advance_ops w t ops r ≡ advanced t ops r
unfolding advance_ops
advance_ops-advanced w t ops r wide h below few =
    let o = h.operations in
    let sum : (r.op_index + ops) % w ≡ r.op_index + ops = mod-eq_of_lt (omega arith) in
    let product : (t.minimum_instruction_length * ((r.op_index + ops) / t.maximum_operations)) % w
        ≡ t.minimum_instruction_length * ((r.op_index + ops) / t.maximum_operations) =
      mod-eq_of_lt (omega (arith, small_advance t ops r h below few)) in
    rw (sum, product)

-- The special opcode for a line advance of line_base + d and an advance of a operations.
abbrev pub special_opcode : Table → ℕ → ℕ → ℕ
special_opcode t d a = d + t.line_range * a + t.opcode_base

-- The row that a special opcode puts out: the line and the address advance.
abbrev pub special_row : Table → ℕ → ℕ → Row → Row
special_row t d a r = record r {
  line = (r.line + (t.line_base + d)) % 2 ^ 32;
  address =
      add64 r.address (t.minimum_instruction_length * ((r.op_index + a) / t.maximum_operations));
  op_index = (r.op_index + a) % t.maximum_operations;
}

-- The registers behind it: the flags and the discriminator hold for one row.
abbrev pub special_regs : Table → ℕ → ℕ → Row → Row
special_regs t d a r = record (special_row t d a r) {
  basic_block = false;
  prologue_end = false;
  epilogue_begin = false;
  discriminator = 0;
}

few_operations : (range d a base : ℕ) → 0 < range → d + range * a + base < 256 → a < 256
few_operations range d a base h lt =
    let grow : 1 * a ≤ range * a = mul-le-mul (omega arith) (omega arith) in omega arith

-- In a ready state of a table whose header holds bytes, where the cursor reads the special opcode
-- that DWARF assigns to a line advance and an operation advance, the step puts out the row with
-- these advances: the line moves by line_base + d, the address and the operation index by a
-- operations. The registers are that row with basic_block, prologue_end and epilogue_begin false
-- and the discriminator 0, and the table does not change.
pub step-special_row :
    (s : State) (d a : ℕ) (c : Cursor)
    → IsReady s
    → IsHeader s.table
    → d < s.table.line_range
    → fixed 1 s.cur ≡ ok (special_opcode s.table d a, c)
    → step s
      ≡ ok (
        record s {
          entry = special_row s.table d a s.regs;
          regs = special_regs s.table d a s.regs;
          cur = c;
        },
        true,
      )
unfolding step step_special after_row
step-special_row s d a c v h small read =
    let t = s.table in
    let byte = (fixed-Forward 1 s.cur v.image (omega arith) (omega arith) read).1 in
    let is_special : leb t.opcode_base (special_opcode t d a) ≡ true = le→leb _ _ (omega arith) in
    let adjusted : special_opcode t d a - t.opcode_base ≡ d + t.line_range * a = omega arith in
    let line : (d + t.line_range * a) % t.line_range ≡ d =
      add-mul-mod_self_left d t.line_range a ∙ mod-eq_of_lt small in
    let ops : (d + t.line_range * a) / t.line_range ≡ a =
      add-mul-div_left d a h.line_range
      ∙ ap (λ (q : ℕ). q + a) (div-eq_of_lt small)
      ∙ omega arith in
    let few = few_operations t.line_range d a t.opcode_base h.line_range (omega arith) in
    let out =
      advance_ops-advanced u32_mod t a (add_line (t.line_base + d) s.regs) (omega arith) h
        v.regs.op_index few in
    rw (read, is_special, adjusted, line, ops, out)

-- In a ready state of a table whose header holds bytes, `const_add_pc` advances the address and the operation index as special opcode 255 does, and
-- leaves the line and the row.
pub const_add_pc-special :
    (s : State) (opcode : ℕ)
    → IsReady s
    → IsHeader s.table
    → step_standard (some Lns.const_add_pc) opcode s
      ≡ ok (record s {
        regs = record (s.regs) {
          address = (step_special 255 s).entry.address;
          op_index = (step_special 255 s).entry.op_index;
        };
      })
unfolding step_standard step_special
const_add_pc-special s opcode v h =
    let t = s.table in
    let ops = (255 - t.opcode_base) / t.line_range in
    let few : ops < 256 = omega (arith, div-le_self (255 - t.opcode_base) t.line_range) in
    rw (
      advance_ops-advanced u64_mod t ops s.regs (omega arith) h v.regs.op_index few,
      advance_ops-advanced u32_mod t ops
          (add_line (t.line_base + (255 - t.opcode_base) % t.line_range) s.regs) (omega arith) h
          v.regs.op_index few,
    )
