-- ===== src/Dwarf/Line/Program.antt =====
-- dwarf/line.cc: `iterator::step`, the opcodes of the line number program.
pub mod Ready
pub mod Rows
pub mod Special
pub mod Ends
use libelfin.Prelude.{
  ℕ, zero, suc, ◌+◌, ◌-◌, ◌*◌, ◌/◌, ◌%◌, ◌^◌, Bool, true, false, not, ◌&&◌, Option, none, some,
  List, [], ◌∷◌, ltb, leb, ◌==◌, if◌then◌else◌, get_elem?,
}
use libelfin.Result.{
  Result, ok, err, undefined, format_error, runtime_error, unknown_line_opcode, vendor_line_opcode,
  extended_exceeds, guard, ◌>>=◌, ◌>>◌,
}
use libelfin.Word.{u64_mod, add64, is_negative, sign_extend}
use libelfin.Dwarf.Cursor.{Cursor, get_section_offset, fixed, uleb128, sleb128, address}
use libelfin.Dwarf.Line.{Row, Table, reset, read_file_entry}

-- `DW_LNS`, by number from 1 on
pub data Lns : Type 0 where
  copy advance_pc advance_line set_file set_column negate_stmt set_basic_block : Lns
  const_add_pc fixed_advance_pc set_prologue_end set_epilogue_begin set_isa : Lns

-- `DW_LNE`
pub data Lne : Type 0 where
  end_sequence set_address define_file set_discriminator lo_user : Lne

abbrev pub standard_opcodes : List Lns
standard_opcodes =
    Lns.copy ∷ Lns.advance_pc ∷ Lns.advance_line ∷ Lns.set_file ∷ Lns.set_column ∷ Lns.negate_stmt
    ∷ Lns.set_basic_block ∷ Lns.const_add_pc ∷ Lns.fixed_advance_pc ∷ Lns.set_prologue_end
    ∷ Lns.set_epilogue_begin ∷ Lns.set_isa ∷ []

abbrev pub lns_of : ℕ → Option Lns
lns_of opcode = get_elem? standard_opcodes (opcode - 1)

abbrev pub lne_of : ℕ → Option Lne
lne_of opcode =
    if opcode == 1
    then some Lne.end_sequence
    else if opcode == 2
    then some Lne.set_address
    else if opcode == 3
    then some Lne.define_file
    else if opcode == 4
    then some Lne.set_discriminator
    else if leb 0x80 opcode
    then some Lne.lo_user
    else none

-- What `step` works on: the table, the iterator's rows, and the cursor.
pub record State : Type 0 where
  pub table : Table
  pub entry : Row
  pub regs : Row
  pub cur : Cursor

-- `unsigned` and `uint64_t`
abbrev pub u32_mod : ℕ
u32_mod = 0x1_0000_0000

-- An advance by `ops` operations, computed in the word of modulus `w`.
unfoldable pub advance_ops : ℕ → Table → ℕ → Row → Row
advance_ops w t ops r = record r {
  address =
      add64 r.address
        ((t.minimum_instruction_length * (((r.op_index + ops) % w) / t.maximum_operations)) % w);
  op_index = ((r.op_index + ops) % w) % t.maximum_operations;
}

-- The flags of one row.
unfoldable pub after_row : Row → Row
after_row r = record r {
  basic_block = false;
  prologue_end = false;
  epilogue_begin = false;
  discriminator = 0;
}

-- `regs.line += line_inc` on unsigned, with the pattern of a signed increment.
abbrev pub add_line : ℕ → Row → Row
add_line inc r = record r { line = (r.line + inc) % u32_mod }

-- A special opcode.
unfoldable pub step_special : ℕ → State → State
step_special opcode s =
    let adjusted : ℕ = opcode - s.table.opcode_base in
    let inc : ℕ = s.table.line_base + adjusted % s.table.line_range in
    let row : Row =
      advance_ops u32_mod s.table (adjusted / s.table.line_range) (add_line inc s.regs) in
    record s { entry = row; regs = after_row row }

-- The sum of two int64_t overflows.
abbrev pub overflows : ℕ → ℕ → Bool
overflows a b =
    if is_negative a
    then is_negative b && not (is_negative (add64 a b))
    else not (is_negative b) && is_negative (add64 a b)

-- `regs.line = (signed)regs.line + cur->sleb128();`
abbrev pub advance_line_by : ℕ → Row → Result Row
advance_line_by inc r =
    let line : ℕ = sign_extend 0x8000_0000 r.line in
    if overflows line inc then err undefined else ok (record r { line = add64 line inc % u32_mod })

unfoldable pub step_standard : Option Lns → ℕ → State → Result State
step_standard (some Lns.copy) opcode s = ok (record s { entry = s.regs; regs = after_row s.regs })
step_standard (some Lns.advance_pc) opcode s = do
  (uarg, c) ← uleb128 s.cur
  ok (record s { regs = advance_ops u64_mod s.table uarg s.regs; cur = c })
step_standard (some Lns.advance_line) opcode s = do
  (inc, c) ← sleb128 s.cur
  row ← advance_line_by inc s.regs
  ok (record s { regs = row; cur = c })
step_standard (some Lns.set_file) opcode s = do
  (v, c) ← uleb128 s.cur
  ok (record s { regs = record (s.regs) { file_index = v % u32_mod }; cur = c })
step_standard (some Lns.set_column) opcode s = do
  (v, c) ← uleb128 s.cur
  ok (record s { regs = record (s.regs) { column = v % u32_mod }; cur = c })
step_standard (some Lns.negate_stmt) opcode s =
    ok (record s { regs = record (s.regs) { is_stmt = not s.regs.is_stmt } })
step_standard (some Lns.set_basic_block) opcode s =
    ok (record s { regs = record (s.regs) { basic_block = true } })
step_standard (some Lns.const_add_pc) opcode s =
    let uarg : ℕ = (255 - s.table.opcode_base) / s.table.line_range in
    ok (record s { regs = advance_ops u64_mod s.table uarg s.regs })
step_standard (some Lns.fixed_advance_pc) opcode s = do
  (v, c) ← fixed 2 s.cur
  ok (record s {
    regs = record (s.regs) { address = add64 s.regs.address v; op_index = 0 };
    cur = c;
  })
step_standard (some Lns.set_prologue_end) opcode s =
    ok (record s { regs = record (s.regs) { prologue_end = true } })
step_standard (some Lns.set_epilogue_begin) opcode s =
    ok (record s { regs = record (s.regs) { epilogue_begin = true } })
step_standard (some Lns.set_isa) opcode s = do
  (v, c) ← uleb128 s.cur
  ok (record s { regs = record (s.regs) { isa = v % u32_mod }; cur = c })
step_standard none opcode s = err (format_error (unknown_line_opcode opcode))

unfoldable pub step_extension : Option Lne → ℕ → State → Result State
step_extension (some Lne.end_sequence) opcode s = ok (record s {
  entry = record (s.regs) { end_sequence = true };
  regs = reset s.table.default_is_stmt;
})
step_extension (some Lne.set_address) opcode s = do
  (v, c) ← address s.cur
  ok (record s { regs = record (s.regs) { address = v; op_index = 0 }; cur = c })
step_extension (some Lne.define_file) opcode s = do
  (_, t, c) ← read_file_entry s.table false s.cur
  ok (record s { table = t; cur = c })
step_extension (some Lne.set_discriminator) opcode s = do
  (v, c) ← uleb128 s.cur
  ok (record s { regs = record (s.regs) { discriminator = v % u32_mod }; cur = c })
step_extension (some Lne.lo_user) opcode s = err (runtime_error (vendor_line_opcode opcode))
step_extension none opcode s = err (format_error (unknown_line_opcode opcode))

-- An extended opcode behind its 0. `cur += end - ...` moves the local pointer to the cursor and not
-- the cursor, so the rest of the block is not skipped.
unfoldable pub step_extended : State → Result (State × Bool)
step_extended s = do
  (length, c1) ← uleb128 s.cur
  (opcode, c2) ← fixed 1 c1
  s' ← step_extension (lne_of opcode) opcode (record s { cur = c2 })
  guard (leb (get_section_offset s'.cur) (add64 (get_section_offset c1) length))
      (format_error extended_exceeds)
  ok (s', opcode == 1)

-- `iterator::step`: the state, and whether a row is out.
unfoldable pub step : State → Result (State × Bool)
step s = do
  (opcode, c) ← fixed 1 s.cur
  if leb s.table.opcode_base opcode
      then ok (step_special opcode (record s { cur = c }), true)
      else if opcode == 0
      then step_extended (record s { cur = c })
      else (do
        s' ← step_standard (lns_of opcode) opcode (record s { cur = c })
        ok (s', opcode == 1))
