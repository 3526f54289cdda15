-- ===== src/Dwarf/Op.antt =====
-- dwarf/data.hh: `DW_OP`. The operations are grouped as the comments of the switch in
-- dwarf/expr.cc group them; `op_of` reads the code of an operation.
use libelfin.Prelude.{ℕ, ◌-◌, Bool, ◌&&◌, List, [], ◌∷◌, leb, ◌==◌, if◌then◌else◌}

-- 2.5.1.1 Literal encodings; `lit n` is DW_OP_lit0 + n.
pub data LiteralOp : Type 0 where
  lit : ℕ → LiteralOp
  addr const1u const2u const4u const8u const1s const2s const4s const8s constu consts : LiteralOp

-- 2.5.1.2 Register based addressing; `breg n` is DW_OP_breg0 + n.
pub data RegisterOp : Type 0 where
  fbreg bregx : RegisterOp
  breg : ℕ → RegisterOp

-- 2.5.1.3 Stack operations
pub data StackOp : Type 0 where
  dup drop pick over swap rot deref deref_size xderef xderef_size : StackOp
  push_object_address form_tls_address call_frame_cfa : StackOp

-- 2.5.1.4 Arithmetic and logical operations
pub data ArithOp : Type 0 where
  abs and_ div minus mod_ mul neg not_ or_ plus plus_uconst shl shr shra xor_ : ArithOp

-- 2.5.1.5 Control flow operations
pub data RelOp : Type 0 where
  le ge eq lt gt ne : RelOp

pub data JumpOp : Type 0 where
  skip bra call2 call4 call_ref : JumpOp

-- 2.5.1.6 Special operations, 2.6.1.1.2 register locations (`reg n` is DW_OP_reg0 + n), 2.6.1.1.3
-- implicit locations, 2.6.1.2 composite locations, and what the switch refuses.
pub data LocationOp : Type 0 where
  nop regx implicit_value stack_value piece bit_piece : LocationOp
  reg user other : ℕ → LocationOp

pub data Op : Type 0 where
  literal : LiteralOp → Op
  register : RegisterOp → Op
  stack : StackOp → Op
  arith : ArithOp → Op
  rel : RelOp → Op
  jump : JumpOp → Op
  location : LocationOp → Op

-- An operation with its code.
pub record OpCode : Type 0 where
  pub code : ℕ
  pub op : Op

abbrev pub coded : ℕ → Op → OpCode
coded v o = record { code = v; op = o }

abbrev pub named_ops : List OpCode
named_ops =
    coded 0x03 (literal addr)
    ∷ coded 0x06 (stack deref)
    ∷ coded 0x08 (literal const1u)
    ∷ coded 0x09 (literal const1s)
    ∷ coded 0x0a (literal const2u)
    ∷ coded 0x0b (literal const2s)
    ∷ coded 0x0c (literal const4u)
    ∷ coded 0x0d (literal const4s)
    ∷ coded 0x0e (literal const8u)
    ∷ coded 0x0f (literal const8s)
    ∷ coded 0x10 (literal constu)
    ∷ coded 0x11 (literal consts)
    ∷ coded 0x12 (stack dup)
    ∷ coded 0x13 (stack drop)
    ∷ coded 0x14 (stack over)
    ∷ coded 0x15 (stack pick)
    ∷ coded 0x16 (stack swap)
    ∷ coded 0x17 (stack rot)
    ∷ coded 0x18 (stack xderef)
    ∷ coded 0x19 (arith abs)
    ∷ coded 0x1a (arith and_)
    ∷ coded 0x1b (arith div)
    ∷ coded 0x1c (arith minus)
    ∷ coded 0x1d (arith mod_)
    ∷ coded 0x1e (arith mul)
    ∷ coded 0x1f (arith neg)
    ∷ coded 0x20 (arith not_)
    ∷ coded 0x21 (arith or_)
    ∷ coded 0x22 (arith plus)
    ∷ coded 0x23 (arith plus_uconst)
    ∷ coded 0x24 (arith shl)
    ∷ coded 0x25 (arith shr)
    ∷ coded 0x26 (arith shra)
    ∷ coded 0x27 (arith xor_)
    ∷ coded 0x2f (jump skip)
    ∷ coded 0x28 (jump bra)
    ∷ coded 0x29 (rel eq)
    ∷ coded 0x2a (rel ge)
    ∷ coded 0x2b (rel gt)
    ∷ coded 0x2c (rel le)
    ∷ coded 0x2d (rel lt)
    ∷ coded 0x2e (rel ne)
    ∷ coded 0x90 (location regx)
    ∷ coded 0x91 (register fbreg)
    ∷ coded 0x92 (register bregx)
    ∷ coded 0x93 (location piece)
    ∷ coded 0x94 (stack deref_size)
    ∷ coded 0x95 (stack xderef_size)
    ∷ coded 0x96 (location nop)
    ∷ coded 0x97 (stack push_object_address)
    ∷ coded 0x98 (jump call2)
    ∷ coded 0x99 (jump call4)
    ∷ coded 0x9a (jump call_ref)
    ∷ coded 0x9b (stack form_tls_address)
    ∷ coded 0x9c (stack call_frame_cfa)
    ∷ coded 0x9d (location bit_piece)
    ∷ coded 0x9e (location implicit_value)
    ∷ coded 0x9f (location stack_value)
    ∷ []

pub find_op : ℕ → List OpCode → Op
find_op v [] = location (other v)
find_op v (o ∷ os) = let later = find_op v os in if o.code == v then o.op else later

abbrev in_range : ℕ → ℕ → ℕ → Bool
in_range lo hi v = leb lo v && leb v hi

-- `(DW_OP)cur.fixed<ubyte>()`, with the ranges of the switch.
unfoldable pub op_of : ℕ → Op
unfolding find_op
op_of v =
    if in_range 0x30 0x4f v
    then literal (lit (v - 0x30))
    else if in_range 0x50 0x6f v
    then location (reg (v - 0x50))
    else if in_range 0x70 0x8f v
    then register (breg (v - 0x70))
    else if in_range 0xe0 0xff v
    then location (user v)
    else find_op v named_ops
