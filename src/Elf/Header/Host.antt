-- ===== src/Elf/Header/Host.antt =====
-- elf/data.hh: the headers do not depend on the byte order of the machine.
use native.Mathlib.Decide.{dec_le}
use mathlib.Core.Path.{subst}
use libelfin.Prelude.{
  ℕ, zero, suc, ◌+◌, ◌≤◌, ◌<◌, ◌≡◌, refl, ap, List, [], ◌∷◌, arith, length, All, get_elem?_ge,
}
use libelfin.Result.{Result, ok, err, undefined, ◌>>=◌}
use libelfin.Word.{IsByte}
use libelfin.Dwarf.Section.{ByteOrder, lsb, msb}
use libelfin.Dwarf.Cursor.{fixed_value, fixed_lsb, fixed_msb, read_byte}
use libelfin.Dwarf.Cursor.Image.{Holds-range, read_byte_within}
use libelfin.Dwarf.Cursor.Fixed.{order_value, fixed_value_lem}
use libelfin.Elf.Order.{ElfOrder, resolved, swizzle}
use libelfin.Elf.Order.Field.{swizzle-order_value}
use libelfin.Elf.Header.{field, from}

-- Past the end of the memory, every order is undefined.
past_lsb :
    (n i : ℕ) (mem : List ℕ) (p v : ℕ)
    → All IsByte mem
    → length mem < p + i + n
    → 1 ≤ n
    → fixed_lsb n i mem p v ≡ err undefined
unfolding fixed_lsb read_byte
past_lsb zero i mem p v all out some_byte = absurd (omega arith)
past_lsb (suc n) i mem p v all out some_byte = elim (dec_le (length mem) (p + i)) [
  | yes past ↦ rw (get_elem?_ge mem (p + i) past) refl
  | no inside ↦
      let (b, read, byte) = read_byte_within mem (p + i) all (omega arith) in
      rw read (past_lsb n (i + 1) mem p _ all (omega arith) (omega arith))
]

past_msb :
    (n i : ℕ) (mem : List ℕ) (p v : ℕ)
    → All IsByte mem
    → length mem < p + i + n
    → 1 ≤ n
    → fixed_msb n i mem p v ≡ err undefined
unfolding fixed_msb read_byte
past_msb zero i mem p v all out some_byte = absurd (omega arith)
past_msb (suc n) i mem p v all out some_byte = elim (dec_le (length mem) (p + i)) [
  | yes past ↦ rw (get_elem?_ge mem (p + i) past) refl
  | no inside ↦
      let (b, read, byte) = read_byte_within mem (p + i) all (omega arith) in
      rw read (past_msb n (i + 1) mem p _ all (omega arith) (omega arith))
]

past_value :
    (o : ByteOrder) (n : ℕ) (mem : List ℕ) (p : ℕ)
    → All IsByte mem
    → length mem < p + n
    → 1 ≤ n
    → fixed_value o n mem p ≡ err undefined
past_value lsb n mem p all out some_byte = past_lsb n 0 mem p 0 all (omega arith) some_byte
past_value msb n mem p all out some_byte = past_msb n 0 mem p 0 all (omega arith) some_byte

-- A field is read in the order of the file.
field_value :
    (host order : ByteOrder) (n : ℕ) (mem : List ℕ) (p : ℕ)
    → All IsByte mem
    → 1 ≤ n
    → n ≤ 8
    → field host order n mem p ≡ fixed_value order n mem p
unfolding field
field_value host order n mem p all some_byte short = elim (dec_le (p + n) (length mem)) [
  | no out ↦
      rw
        (
          past_value host n mem p all (omega arith) some_byte,
          past_value order n mem p all (omega arith) some_byte,
        )
        refl
  | yes fits ↦
      let (bs, at_p, byte, size) = Holds-range n mem p all fits in
      let reads = λ (o : ByteOrder).
        subst (λ k. fixed_value o k mem p ≡ ok (order_value o bs)) size
          (fixed_value_lem o bs mem p byte at_p (omega arith)) in
      let turned =
        subst
          (λ k.
            swizzle host k (order_value host bs) (resolved order) ElfOrder.native
            ≡ order_value order bs)
          size (swizzle-order_value host order bs byte (omega arith)) in
      rw (reads host, reads order) (ap ok turned)
]

abbrev pub IsSize : ℕ → Type 0
IsSize n = (1 ≤ n) × (n ≤ 8)

-- The fields of a header, as the bytes of the file say.
abbrev pub fields_in : ByteOrder → List ℕ → List ℕ → ℕ → Result (List ℕ)
fields_in order [] mem p = ok []
fields_in order (n ∷ sizes) mem p = do
  v ← fixed_value order n mem p
  vs ← fields_in order sizes mem (p + n)
  ok (v ∷ vs)

pub from-fields_in :
    (host order : ByteOrder) (sizes mem : List ℕ) (p : ℕ)
    → All IsByte mem
    → All IsSize sizes
    → from host order sizes mem p ≡ fields_in order sizes mem p
unfolding from
from-fields_in host order [] mem p all short = refl
from-fields_in host order (n ∷ sizes) mem p all short =
    rw
      (
        field_value host order n mem p all short.0.0 short.0.1,
        from-fields_in host order sizes mem (p + n) all short.1,
      )
      refl
