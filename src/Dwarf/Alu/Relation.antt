-- ===== src/Dwarf/Alu/Relation.antt =====
-- What the comparisons of the evaluator compute, against the signed comparisons of DWARF.
use libelfin.Prelude.{ℕ, ◌≡◌, Bool, true, false, not, arith, ltb, ◌==◌, if◌then◌else◌}
use libelfin.Word.{IsU64, is_negative}
use libelfin.Dwarf.Op.{RelOp, le, ge, eq, lt, gt, ne}
use libelfin.Dwarf.Alu.{relation_value}

-- `a < b` on the numbers that the patterns of int64_t stand for.
abbrev pub signed_lt : ℕ → ℕ → Bool
signed_lt a b =
    if is_negative a
    then (if is_negative b then ltb a b else true)
    else (if is_negative b then false else ltb a b)

-- DWARF compares the second entry of the stack with the top.
abbrev pub holds : RelOp → ℕ → ℕ → Bool
holds le top second = not (signed_lt top second)
holds ge top second = not (signed_lt second top)
holds eq top second = second == top
holds lt top second = signed_lt second top
holds gt top second = signed_lt top second
holds ne top second = not (second == top)

abbrev pub truth : Bool → ℕ
truth true = 1
truth false = 0

-- Where `<=` gives what the comparison should.
abbrev pub right_at : RelOp → ℕ → ℕ → Bool
right_at le top second = true
right_at ge top second = second == top
right_at eq top second = not (signed_lt second top)
right_at lt top second = not (second == top)
right_at gt top second = false
right_at ne top second = signed_lt second top

-- All six comparisons compute `<=`: `le` is right, `gt` is wrong on every pair, `ge` right on equal
-- numbers alone, `lt` wrong on equal numbers, `eq` wrong where the second entry is the smaller, and
-- `ne` right there alone.
pub relation_value-right_at :
    (op : RelOp) (a b : ℕ)
    → IsU64 a
    → IsU64 b
    → (relation_value op a b == truth (holds op a b)) ≡ right_at op a b
unfolding relation_value
relation_value-right_at le a b ha hb = ground arith
relation_value-right_at ge a b ha hb = ground arith
relation_value-right_at eq a b ha hb = ground arith
relation_value-right_at lt a b ha hb = ground arith
relation_value-right_at gt a b ha hb = ground arith
relation_value-right_at ne a b ha hb = ground arith
