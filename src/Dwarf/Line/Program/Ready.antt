-- ===== src/Dwarf/Line/Program/Ready.antt =====
-- dwarf/line.cc: the state that `step` keeps ready, under special and standard opcodes.
use mathlib.Core.Path.{subst}
use native.Mathlib.Nat.{mod-lt}
use libelfin.Prelude.{ℕ, ◌+◌, ◌-◌, ◌/◌, ◌%◌, ◌≤◌, ◌<◌, sym, ap, Bool, Option, none, some, arith}
use libelfin.Result.{ok, ◌>>=◌, Gives, ok-Gives, bind-Gives, if-Gives}
use libelfin.Word.{u64_mod, sign_extend}
use libelfin.Dwarf.Section.{Section}
use libelfin.Dwarf.Cursor.{Cursor, fixed, uleb128, sleb128}
use libelfin.Dwarf.Cursor.Image.{InImage}
use libelfin.Dwarf.Cursor.Progress.{
  Onward, Forward-Onward, Onward-refl, fixed-Forward, uleb128-Forward, sleb128-Forward,
}
use libelfin.Dwarf.Line.{Row, Table, reset}
use libelfin.Dwarf.Line.Files.{Extends, Extends-refl}
use libelfin.Dwarf.Line.Program.{
  Lns, State, u32_mod, advance_ops, after_row, step_special, overflows, advance_line_by,
  step_standard,
}

-- The fields are values of their types, and the operation index lies below the header's bound.
pub record IsRow (operations : ℕ) (r : Row) : Type 0 where
  pub address : r.address < u64_mod
  pub op_index : r.op_index < operations
  pub file_index : r.file_index < u32_mod
  pub line : r.line < u32_mod
  pub column : r.column < u32_mod
  pub isa : r.isa < u32_mod
  pub discriminator : r.discriminator < u32_mod

pub record IsReady (s : State) : Type 0 where
  pub operations : 0 < s.table.maximum_operations
  pub regs : IsRow s.table.maximum_operations s.regs
  pub entry : IsRow s.table.maximum_operations s.entry
  pub image : InImage s.cur.sec
  pub here : s.cur.pos ≤ s.cur.sec.end

-- The state is ready again, the table only grew, and the cursor did not go back.
abbrev pub Keeps : State → State → Type 0
Keeps s s' = IsReady s' × Extends s.table s'.table × Onward s.cur s'.cur

pub reset-IsRow : (n : ℕ) (b : Bool) → 0 < n → IsRow n (reset b)
unfolding reset
reset-IsRow n b h = omega arith

advance_ops-IsRow :
    (w : ℕ) (t : Table) (ops : ℕ) (r : Row)
    → 0 < t.maximum_operations
    → IsRow t.maximum_operations r
    → IsRow t.maximum_operations (advance_ops w t ops r)
unfolding advance_ops
advance_ops-IsRow w t ops r h v = record {
  address = omega arith;
  op_index = mod-lt ((r.op_index + ops) % w) h;
  file_index = v.file_index;
  line = v.line;
  column = v.column;
  isa = v.isa;
  discriminator = v.discriminator;
}

after_row-IsRow : (n : ℕ) (r : Row) → IsRow n r → IsRow n (after_row r)
unfolding after_row
after_row-IsRow n r v = omega arith

-- A new cursor in the same section.
pub moved : (s : State) (c : Cursor) → IsReady s → Onward s.cur c → IsReady (record s { cur = c })
moved s c v f = record {
  operations = v.operations;
  regs = v.regs;
  entry = v.entry;
  image = subst InImage (sym f.same_section) v.image;
  here = omega (arith, f.inside, ap (λ (t : Section). t.end) f.same_section);
}

-- New registers behind a read.
pub with_regs :
    (s : State) (r : Row) (c : Cursor)
    → IsReady s
    → Onward s.cur c
    → IsRow s.table.maximum_operations r
    → Keeps s (record s { regs = r; cur = c })
with_regs s r c v f vr = (
  record {
    operations = v.operations;
    regs = vr;
    entry = v.entry;
    image = subst InImage (sym f.same_section) v.image;
    here = omega (arith, f.inside, ap (λ (t : Section). t.end) f.same_section);
  },
  Extends-refl s.table,
  f,
)

pub special-Keeps : (opcode : ℕ) (s : State) → IsReady s → Keeps s (step_special opcode s)
unfolding step_special
special-Keeps opcode s v =
    let t = s.table in
    let row : Row = record (s.regs) {
      line = (s.regs.line + (t.line_base + (opcode - t.opcode_base) % t.line_range)) % u32_mod;
    } in
    let ready : IsRow t.maximum_operations row = let w = v.regs in omega arith in
    let out =
      advance_ops-IsRow u32_mod t ((opcode - t.opcode_base) / t.line_range) row v.operations
        ready in
    (
      record {
        operations = v.operations;
        regs = after_row-IsRow t.maximum_operations _ out;
        entry = out;
        image = v.image;
        here = v.here;
      },
      Extends-refl t,
      Onward-refl v.here,
    )

-- One unsigned field behind a LEB128 number.
pub read_field :
    (s : State) (set : ℕ → Row)
    → IsReady s
    → ((v : ℕ) → IsRow s.table.maximum_operations (set (v % u32_mod)))
    → Gives
        (Keeps s)
        (do (v, c) ← uleb128 s.cur; ok (record s { regs = set (v % u32_mod); cur = c }))
read_field s set v field = bind-Gives (Keeps s) (uleb128 s.cur) _ λ a e.
    let f = Forward-Onward (uleb128-Forward s.cur {v = a.0} {c' = a.1} e).0 in
    ok-Gives (Keeps s) _ (with_regs s (set (a.0 % u32_mod)) a.1 v f (field a.0))

pub standard-Keeps :
    (o : Option Lns) (opcode : ℕ) (s : State)
    → IsReady s
    → Gives (Keeps s) (step_standard o opcode s)
unfolding step_standard
standard-Keeps (some Lns.copy) opcode s v =
    let P = Keeps s in
    ok-Gives P _ (
      record {
        operations = v.operations;
        regs = after_row-IsRow s.table.maximum_operations s.regs v.regs;
        entry = v.regs;
        image = v.image;
        here = v.here;
      },
      Extends-refl s.table,
      Onward-refl v.here,
    )
standard-Keeps (some Lns.advance_pc) opcode s v = bind-Gives (Keeps s) (uleb128 s.cur) _ λ a e.
    let f = Forward-Onward (uleb128-Forward s.cur {v = a.0} {c' = a.1} e).0 in
    ok-Gives (Keeps s) _
      (with_regs s _ a.1 v f (advance_ops-IsRow u64_mod s.table a.0 s.regs v.operations v.regs))
standard-Keeps (some Lns.advance_line) opcode s v = bind-Gives (Keeps s) (sleb128 s.cur) _ λ a e.
    let f = Forward-Onward (sleb128-Forward s.cur {v = a.0} {c' = a.1} e) in
    bind-Gives (Keeps s) (advance_line_by a.0 s.regs) _
      λ r e'. ok-Gives (Keeps s) _ (with_regs s r a.1 v f (line_row a.0 r e'))
  where
    line_row : (inc : ℕ) → Gives (IsRow s.table.maximum_operations) (advance_line_by inc s.regs)
    line_row inc =
        if-Gives _ (overflows (sign_extend 0x8000_0000 s.regs.line) inc) _ _ (λ r e. absurd (cc))
          (ok-Gives _ _ (let w = v.regs in omega arith))
standard-Keeps (some Lns.set_file) opcode s v =
    read_field s (λ n. record (s.regs) { file_index = n }) v λ n. let w = v.regs in omega arith
standard-Keeps (some Lns.set_column) opcode s v =
    read_field s (λ n. record (s.regs) { column = n }) v λ n. let w = v.regs in omega arith
standard-Keeps (some Lns.set_isa) opcode s v =
    read_field s (λ n. record (s.regs) { isa = n }) v λ n. let w = v.regs in omega arith
standard-Keeps (some Lns.const_add_pc) opcode s v = ok-Gives (Keeps s) _ (
    with_regs s _ s.cur v (Onward-refl v.here)
      (advance_ops-IsRow u64_mod s.table _ s.regs v.operations v.regs))
standard-Keeps (some Lns.fixed_advance_pc) opcode s v =
    bind-Gives (Keeps s) (fixed 2 s.cur) _ λ a e.
      let f =
        Forward-Onward
          (fixed-Forward 2 s.cur {v = a.0} {c' = a.1} v.image (omega arith) (omega arith) e).0 in
      ok-Gives (Keeps s) _
        (with_regs s _ a.1 v f (let w = v.regs in let o = v.operations in omega arith))
standard-Keeps none opcode s v = λ r e. absurd (cc)
standard-Keeps (some _) opcode s v =
    ok-Gives (Keeps s) _
      (with_regs s _ s.cur v (Onward-refl v.here) (let w = v.regs in omega arith))
