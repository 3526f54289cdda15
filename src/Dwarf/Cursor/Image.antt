-- ===== src/Dwarf/Cursor/Image.antt =====
-- Sections that lie in the loaded image, and what a run of bytes in it holds.
use libelfin.Prelude.{
  ℕ, zero, suc, ◌+◌, ◌≤◌, ◌<◌, ◌≡◌, refl, some, List, [], ◌∷◌, arith, length, get_elem?,
  get_elem?_lt, All, All-get_elem?,
}
use libelfin.Result.{ok}
use libelfin.Word.{u64_mod, IsByte}
use libelfin.Dwarf.Section.{Section}
use libelfin.Dwarf.Cursor.{read_byte}

-- The section is a part of the image, and its bytes are bytes.
pub record InImage (s : Section) : Type 0 where
  pub ordered : s.begin ≤ s.end
  pub within : s.end ≤ length s.mem
  pub addressable : s.end < u64_mod
  pub bytes : All IsByte s.mem

-- The bytes `bs` stand in the image from index `p` on.
abbrev pub Holds : List ℕ → ℕ → List ℕ → Type 0
Holds mem p [] = Unit {0}
Holds mem p (b ∷ bs) = (get_elem? mem p ≡ some b) × Holds mem (p + 1) bs

pub read_byte-Holds : (mem : List ℕ) (p b : ℕ) → get_elem? mem p ≡ some b → read_byte mem p ≡ ok b
unfolding read_byte
read_byte-Holds mem p b h = rw h

-- A read below the end of the image gives a byte.
pub read_byte_within :
    (mem : List ℕ) (p : ℕ)
    → All IsByte mem
    → p < length mem
    → (b : ℕ) × (read_byte mem p ≡ ok b) × IsByte b
read_byte_within mem p all h =
    let (b, e) = get_elem?_lt mem p h in
    (b, read_byte-Holds mem p b e, All-get_elem? IsByte mem p all e)

-- The bytes of a range of the image.
pub Holds-range :
    (n : ℕ) (mem : List ℕ) (p : ℕ)
    → All IsByte mem
    → p + n ≤ length mem
    → (bs : List ℕ) × Holds mem p bs × All IsByte bs × (length bs ≡ n)
Holds-range zero mem p all h = ([], tt, tt, refl)
Holds-range (suc n) mem p all h =
    let (b, e) = get_elem?_lt mem p (omega arith) in
    let (bs, at_p, byte, len) = Holds-range n mem (p + 1) all (omega arith) in
    (b ∷ bs, (e, at_p), (All-get_elem? IsByte mem p all e, byte), omega arith)
