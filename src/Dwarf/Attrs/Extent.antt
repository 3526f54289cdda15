-- ===== src/Dwarf/Attrs/Extent.antt =====
-- dwarf/attrs.cc and dwarf/rangelist.cc: the addresses of an entry.
use libelfin.Prelude.{
  ℕ, suc, ◌<◌, ◌≡◌, refl, ap, ◌∙◌, ◌⊎◌, inl, inr, Bool, true, false, ◌||◌, ◌&&◌, leb, ltb, [], ◌∷◌,
  arith, length,
}
use libelfin.Result.{ok, ◌>>=◌}
use libelfin.Word.{u64_mod, add64}
use libelfin.Dwarf.Section.{ByteOrder, lsb, msb}
use libelfin.Dwarf.Attribute
use libelfin.Dwarf.File.{Dwarf}
use libelfin.Dwarf.Ranges.{Entry, contains, synthetic}
use libelfin.Dwarf.Ranges.Synthetic.{IsPlain, contains-covered}
use libelfin.Dwarf.Abbrev.{ValueType}
use libelfin.Dwarf.Value.{Value, as_address, as_uconstant}
use libelfin.Dwarf.Die.{Die, has, lookup}
use libelfin.Dwarf.Attrs.{at_address, at_high_pc, pc_high, die_pc_range}

small_synthetic : (host : ByteOrder) (e : Entry) → length (synthetic host (e ∷ [])) < u64_mod
unfolding synthetic
small_synthetic lsb e = omega arith
small_synthetic msb e = omega arith

or_false : (b : Bool) → (b || false) ≡ b
or_false true = refl
or_false false = refl

-- Where the addresses of an entry end: the next address if there is no high_pc, the address that
-- it is, or the low address and the number that it is.
pub data HighPc (die : Die) (low : ℕ) : ℕ → Type 0 where
  next_address : has die Attribute.high_pc ≡ false → HighPc die low (add64 low 1)
  address_is :
      (high : ℕ) (v : Value)
      → has die Attribute.high_pc ≡ true
      → lookup die Attribute.high_pc ≡ ok v
      → v.type ≡ ValueType.address
      → as_address v ≡ ok high
      → HighPc die low high
  offset_is :
      (n : ℕ) (v : Value)
      → has die Attribute.high_pc ≡ true
      → lookup die Attribute.high_pc ≡ ok v
      → (v.type ≡ ValueType.constant) ⊎ (v.type ≡ ValueType.uconstant)
      → as_uconstant v ≡ ok n
      → HighPc die low (add64 low n)

pc_high-HighPc :
    (die : Die) (low high : ℕ)
    → at_address Attribute.low_pc die ≡ ok low
    → HighPc die low high
    → pc_high die low ≡ ok high
unfolding at_high_pc as_address as_uconstant
pc_high-HighPc die low high at_low (next_address lacks) = rw lacks refl
pc_high-HighPc die low high at_low (address_is _ v holds found type is) =
    rw (holds, found, type, is) refl
pc_high-HighPc die low high at_low (offset_is n v holds found (inl type) is) =
    rw (holds, found, type, at_low, is) refl
pc_high-HighPc die low high at_low (offset_is n v holds found (inr type) is) =
    rw (holds, found, type, at_low, is) refl

-- An entry without ranges whose low_pc is an address covers, by `die_pc_range` and `contains`, the
-- addresses from that one up to before the high one: the address that high_pc is, the low one and
-- the number that high_pc is, or the next address if there is no high_pc. (A pair that a range list
-- would read as its end or as a new base is excepted.)
pub die_pc_range-contains :
    (host : ByteOrder) (limit fuel addr low high : ℕ) (d : Dwarf) (die : Die) (v : Value)
    → has die Attribute.ranges ≡ false
    → lookup die Attribute.low_pc ≡ ok v
    → as_address v ≡ ok low
    → HighPc die low high
    → IsPlain (record { low = low; high = high })
    → (die_pc_range host limit d die >>= λ r. contains 2 (suc fuel) r addr)
      ≡ ok (leb low addr && ltb addr high)
unfolding die_pc_range at_address
die_pc_range-contains host limit fuel addr low high d die v no_ranges found low_is ends plain =
    let e : Entry = record { low = low; high = high } in
    let at_low : at_address Attribute.low_pc die ≡ ok low = rw (found, low_is) refl in
    rw (no_ranges, found, low_is, pc_high-HighPc die low high at_low ends)
      (contains-covered host (e ∷ []) 2 fuel addr (plain, tt) (small_synthetic host e) (omega arith)
        ∙ ap ok (or_false (leb low addr && ltb addr high)))
