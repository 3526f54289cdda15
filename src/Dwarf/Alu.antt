-- ===== src/Dwarf/Alu.antt =====
-- dwarf/expr.cc: what the arithmetic, logical and relational operations compute. The first argument
-- is the top of the stack (`tmp1`), the second the entry below it (`tmp2`).
pub mod Shift
pub mod Relation
pub mod Divide
use Prim.Native.Nat.{bit_xor}
use libelfin.Prelude.{ℕ, ◌-◌, ◌/◌, ◌%◌, ◌^◌, ◌&&◌, bit_and, bit_or, ltb, leb, ◌==◌, if◌then◌else◌}
use libelfin.Result.{Result, ok, err, undefined}
use libelfin.Word.{u64_mod, add64, sub64, neg64, mul64, shl64, is_negative, bias}
use libelfin.Dwarf.Op.{
  ArithOp, abs, and_, div, minus, mod_, mul, neg, or_, shl, shr, shra, xor_, RelOp,
}

-- `-v` on int64_t: the least number has no negative.
unfoldable pub negate : ℕ → Result ℕ
negate v = if v == 0x8000_0000_0000_0000 then err undefined else ok (neg64 v)

abbrev pub magnitude : ℕ → ℕ
magnitude v = if is_negative v then neg64 v else v

-- `a / b` on int64_t: truncated, undefined at the divisor 0 and where the quotient does not fit.
unfoldable pub divide_signed : ℕ → ℕ → Result ℕ
divide_signed a b =
    let q = magnitude a / magnitude b in
    if b == 0
    then err undefined
    else if a == 0x8000_0000_0000_0000 && b == 0xffff_ffff_ffff_ffff
    then err undefined
    else ok (
        if is_negative a
        then (if is_negative b then q else neg64 q)
        else (if is_negative b then neg64 q else q))

unfoldable pub shift_left : ℕ → ℕ → Result ℕ
shift_left a b = ok (if ltb a 64 then shl64 b a else 0)

unfoldable pub shift_right : ℕ → ℕ → Result ℕ
shift_right a b = ok (if ltb a 64 then b / 2 ^ a else 0)

-- The magnitude is shifted, and the sign put back.
unfoldable pub shift_arithmetic : ℕ → ℕ → Result ℕ
shift_arithmetic a b =
    let shifted = λ (v : ℕ). if ltb a 64 then v / 2 ^ a else 0 in
    if is_negative b
    then (if b == 0x8000_0000_0000_0000 then err undefined else ok (neg64 (shifted (neg64 b))))
    else ok (shifted b)

-- The cases of one operand: `abs`, `neg`, `not_`.
unfoldable pub unary_value : ArithOp → ℕ → Result ℕ
unfolding negate
unary_value abs a = if is_negative a then negate a else ok a
unary_value neg a = negate a
unary_value _ a = ok (u64_mod - 1 - a)

-- The cases of two operands.
unfoldable pub binary_value : ArithOp → ℕ → ℕ → Result ℕ
unfolding divide_signed shift_left shift_right shift_arithmetic
binary_value and_ a b = ok (bit_and b a)
binary_value div a b = divide_signed a b
binary_value minus a b = ok (sub64 b a)
binary_value mod_ a b = if a == 0 then err undefined else ok (b % a)
binary_value mul a b = ok (mul64 b a)
binary_value or_ a b = ok (bit_or b a)
binary_value shl a b = shift_left a b
binary_value shr a b = shift_right a b
binary_value shra a b = shift_arithmetic a b
binary_value xor_ a b = ok (bit_xor b a)
binary_value _ a b = ok (add64 b a)

-- `SRELOP(relop)`: the macro does not use its argument.
unfoldable pub relation_value : RelOp → ℕ → ℕ → ℕ
relation_value op a b = if leb (bias b) (bias a) then 1 else 0
