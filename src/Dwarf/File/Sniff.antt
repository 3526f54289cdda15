-- ===== src/Dwarf/File/Sniff.antt =====
-- dwarf/dwarf.cc: the byte order that the constructor of `dwarf` finds out.
use mathlib.Core.Path.{subst}
use libelfin.Prelude.{
  ℕ, ◌+◌, ◌*◌, ◌≤◌, ◌<◌, ◌≡◌, refl, ap, ◌∙◌, sym, inl, inr, true, List, [], ◌∷◌, arith, ◌==◌,
  ==_iff, length, All, Bool-cases, lt→ltb, le→not_ltb,
}
use libelfin.Prelude.Bits.{every, every_below}
use libelfin.Result.{ok, >>=-eq-ok, ok_inj}
use libelfin.Word.{IsByte}
use libelfin.Dwarf.Section.{Section, ByteOrder, lsb, msb}
use libelfin.Dwarf.Cursor.{Cursor, cursor_at, fixed}
use libelfin.Dwarf.Cursor.Image.{InImage, Holds-range}
use libelfin.Dwarf.Cursor.Fixed.{le_value, be_value, fixed-order_value, fixed_cases}
use libelfin.Dwarf.File.{skip_length, read_version, swap_half, sniff}

abbrev pub in_order : ByteOrder → Section → Section
in_order o s = record s { ord = o }

abbrev cursor_in_order : ByteOrder → Cursor → Cursor
cursor_in_order o c = record { sec = in_order o c.sec; pos = c.pos }

abbrev past : ℕ → Cursor → Cursor
past n c = record c { pos = c.pos + n }

-- What a big-endian read says of the little-endian one.
record BothOrders (n : ℕ) (c : Cursor) (v : ℕ) (c' : Cursor) : Type 0 where
  pub run : List ℕ
  pub are_bytes : All IsByte run
  pub count : length run ≡ n
  pub big : v ≡ be_value 0 run
  pub behind : c' ≡ cursor_in_order msb (past n c)
  pub little : fixed n (cursor_in_order lsb c) ≡ ok (le_value run, cursor_in_order lsb (past n c))

fixed-BothOrders :
    (n : ℕ) (c : Cursor) (v : ℕ) (c' : Cursor)
    → InImage c.sec
    → 1 ≤ n
    → n ≤ 8
    → fixed n (cursor_in_order msb c) ≡ ok (v, c')
    → BothOrders n c v c'
fixed-BothOrders n c v c' img lo hi e =
    let img_msb : InImage (in_order msb c.sec) = record {
      ordered = img.ordered;
      within = img.within;
      addressable = img.addressable;
      bytes = img.bytes;
    } in
    elim (fixed_cases n (cursor_in_order msb c) img_msb lo hi) [
      | inr (under, _) ↦ absurd (cc (rw under at e))
      | inl (w, read, _, fits) ↦
          let within = img.within in
          let (bs, at_p, byte, len) = Holds-range n c.sec.mem c.pos img.bytes (omega arith) in
          let reads = λ (o : ByteOrder).
            fixed-order_value (cursor_in_order o c) bs byte at_p img.addressable (omega arith)
              (omega arith) (omega arith) in
          let big = ok_inj (
            sym e
            ∙ subst
                (λ k.
                  fixed k (cursor_in_order msb c)
                  ≡ ok (be_value 0 bs, cursor_in_order msb (past k c)))
                len (reads msb)) in
          record {
            run = bs;
            are_bytes = byte;
            count = len;
            big = ap (λ (r : ℕ × Cursor). r.0) big;
            behind = ap (λ (r : ℕ × Cursor). r.1) big;
            little =
                subst
                  (λ k.
                    fixed k (cursor_in_order lsb c)
                    ≡ ok (le_value bs, cursor_in_order lsb (past k c)))
                  len (reads lsb);
          }
    ]

-- Four bytes are all 255 in both orders.
escape_orders :
    (bs : List ℕ)
    → All IsByte bs
    → length bs ≡ 4
    → (le_value bs == 0xffff_ffff) ≡ (be_value 0 bs == 0xffff_ffff)
escape_orders [] byte len = absurd (omega arith)
escape_orders (a ∷ []) byte len = absurd (omega arith)
escape_orders (a ∷ b ∷ []) byte len = absurd (omega arith)
escape_orders (a ∷ b ∷ c ∷ []) byte len = absurd (omega arith)
escape_orders (a ∷ b ∷ c ∷ d ∷ []) byte len = ground (arith, byte)
escape_orders (a ∷ b ∷ c ∷ d ∷ e ∷ bs) byte len = absurd (omega arith)

-- A small number that is written in the other order.
half_orders :
    (bs : List ℕ)
    → All IsByte bs
    → length bs ≡ 2
    → be_value 0 bs < 256
    → le_value bs ≡ 256 * be_value 0 bs
half_orders [] byte len small = absurd (omega arith)
half_orders (a ∷ []) byte len small = absurd (omega arith)
half_orders (a ∷ b ∷ []) byte len small = omega (arith, byte)
half_orders (a ∷ b ∷ c ∷ bs) byte len small = absurd (omega arith)

skip_length-orders :
    (bs : List ℕ) (c c' : Cursor)
    → InImage c.sec
    → All IsByte bs
    → length bs ≡ 4
    → skip_length (be_value 0 bs) (cursor_in_order msb c) ≡ ok c'
    → (d : Cursor) × (c' ≡ cursor_in_order msb d)
      × (d.sec ≡ c.sec)
      × (skip_length (le_value bs) (cursor_in_order lsb c) ≡ ok (cursor_in_order lsb d))
skip_length-orders bs c c' img byte len e = elim (Bool-cases (be_value 0 bs == 0xffff_ffff)) [
  | inr short ↦
      let e' : cursor_in_order msb c ≡ c' = ok_inj (rw short at e) in
      (c, sym e', refl, rw (escape_orders bs byte len, short) refl)
  | inl long ↦
      let (r, read, done) = >>=-eq-ok (fixed 8 (cursor_in_order msb c)) _ (rw long at e) in
      let both = fixed-BothOrders 8 c r.0 r.1 img (omega arith) (omega arith) read in
      (
        past 8 c,
        sym (ok_inj done) ∙ both.behind,
        refl,
        rw (escape_orders bs byte len, long, both.little) refl,
      )
]

little_swap_table : every (λ v. swap_half v == v * 256) 256 ≡ true
unfolding every swap_half
little_swap_table = refl

big_swap_table : every (λ v. swap_half (256 * v) == v) 256 ≡ true
unfolding every swap_half
big_swap_table = refl

little_swap : (v : ℕ) → v < 256 → swap_half v ≡ v * 256
little_swap v h = (==_iff _ _).0 (every_below _ 256 v little_swap_table h)

big_swap : (v : ℕ) → v < 256 → swap_half (256 * v) ≡ v
big_swap v h = (==_iff _ _).0 (every_below _ 256 v big_swap_table h)

-- The little-endian section reads the version that the big-endian one holds as 256 times it.
version_orders :
    (s : Section) (version : ℕ)
    → InImage s
    → version < 256
    → read_version (in_order msb s) ≡ ok version
    → read_version (in_order lsb s) ≡ ok (256 * version)
unfolding read_version
version_orders s version img small e =
    let (r4, read4, e1) = >>=-eq-ok (fixed 4 (cursor_at (in_order msb s) 0)) _ e in
    let b4 = fixed-BothOrders 4 (cursor_at s 0) r4.0 r4.1 img (omega arith) (omega arith) read4 in
    let (c', skip, e2) = >>=-eq-ok (skip_length r4.0 r4.1) _ e1 in
    let (d, at_d, same, skip_lsb) =
      skip_length-orders b4.run (past 4 (cursor_at s 0)) c' img b4.are_bytes b4.count (
        sym (
          ap (λ (n : ℕ). skip_length n r4.1) b4.big
          ∙ ap (skip_length (be_value 0 b4.run)) b4.behind)
        ∙ skip) in
    let (r2, read2, done) = >>=-eq-ok (fixed 2 c') _ e2 in
    let b2 =
      fixed-BothOrders 2 d r2.0 r2.1 (subst InImage (sym same) img) (omega arith) (omega arith)
        (ap (fixed 2) (sym at_d) ∙ read2) in
    let is_version : be_value 0 b2.run ≡ version = sym b2.big ∙ ok_inj done in
    let written = half_orders b2.run b2.are_bytes b2.count (omega arith) in
    rw (b4.little, skip_lsb, b2.little) (ap ok (omega (arith, is_version, written)))

-- On a section in the image whose first unit has a version from 1 to 255 in either byte order,
-- the constructor of `dwarf` finds out that byte order.
pub sniff-order :
    (s : Section) (ord : ByteOrder) (version : ℕ)
    → InImage s
    → 0 < version
    → version < 256
    → read_version (in_order ord s) ≡ ok version
    → sniff (in_order lsb s) ≡ ok ord
unfolding sniff
sniff-order s lsb version img some_version small e =
    rw (e, little_swap version small, le→not_ltb (version * 256) version (omega arith)) refl
sniff-order s msb version img some_version small e =
    rw
      (
        version_orders s version img small e,
        big_swap version small,
        lt→ltb version (256 * version) (omega arith),
      )
      refl
