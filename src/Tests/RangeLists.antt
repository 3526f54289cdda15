-- ===== src/Tests/RangeLists.antt =====
-- Range lists made of two pairs, and one read with addresses of 4 bytes.
use libelfin.Prelude.{ℕ, ◌≡◌, true, some, List, [], ◌∷◌, arith}
use libelfin.Result.{ok, Ends}
use libelfin.Dwarf.Section.{msb}
use libelfin.Dwarf.Cursor.Image.{InImage}
use libelfin.Dwarf.Ranges.{Entry, synthetic, pair_section, of_ranges, contains}
use libelfin.Dwarf.Ranges.Synthetic.{contains-covered}
use libelfin.Dwarf.Ranges.Total.{contains-Ends}

abbrev two_pairs : List Entry
two_pairs = record { low = 16; high = 32 } ∷ record { low = 64; high = 80 } ∷ []

contains-covered_example : contains 3 1 (of_ranges msb two_pairs) 70 ≡ ok true
unfolding synthetic
contains-covered_example =
    contains-covered msb two_pairs 3 0 70 (omega arith) (omega arith) (omega arith)

abbrev short_list : List ℕ
short_list = 1 ∷ 0 ∷ 0 ∷ 0 ∷ 2 ∷ 0 ∷ 0 ∷ 0 ∷ 0 ∷ 0 ∷ 0 ∷ 0 ∷ 0 ∷ 0 ∷ 0 ∷ 0 ∷ []

two_pairs-InImage : InImage (pair_section msb (synthetic msb two_pairs))
unfolding synthetic
two_pairs-InImage = omega arith

contains-Ends_example : Ends (
    contains 49 49
      (record { sec = some (pair_section msb (synthetic msb two_pairs)); base_addr = 0 })
      70)
unfolding synthetic
contains-Ends_example =
    contains-Ends (pair_section msb (synthetic msb two_pairs)) 0 49 49 70 two_pairs-InImage
      (omega arith) (omega arith)
