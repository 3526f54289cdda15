-- ===== src/Dwarf/Expr/Total.antt =====
-- The evaluator returns on every expression that holds no jump: as many rounds as it has bytes are
-- enough.
use mathlib.Core.Path.{subst}
use libelfin.Prelude.{
  ℕ, zero, suc, ◌+◌, ◌-◌, ◌≤◌, ◌<◌, ◌≡◌, ◌≢◌, refl, sym, ap, ◌∙◌, inl, inr, true, false, not, ◌||◌,
  some, List, [], ◌∷◌, arith, ◌==◌, Bool-cases, get_elem?, le→leb, All, length,
}
use libelfin.Prelude.Bits.{every, every_below}
use libelfin.Result.{ok, >>=-eq-ok, ok_inj, Ends, bind-Ends, ok-Ends}
use libelfin.Word.{IsByte}
use libelfin.Dwarf.Section.{Section, ByteOrder, lsb, msb}
use libelfin.Dwarf.Cursor.{Cursor, at_end, fixed}
use libelfin.Dwarf.Cursor.Image.{InImage, Holds, Holds-range}
use libelfin.Dwarf.Cursor.Fixed.{fixed-order_value, order_value}
use libelfin.Dwarf.Cursor.Progress.{Forward, fixed-Forward}
use libelfin.Dwarf.Cursor.Ends.{fixed-Ends, if-Ends}
use libelfin.Dwarf.Op.{op_of}
use libelfin.Dwarf.Machine.{Context, Machine, ExprResult, LocationType}
use libelfin.Dwarf.Expr.{round, run, finish_at, top_result, initial, expr_section, evaluate}
use libelfin.Dwarf.Expr.Ends.{ContextEnds, step-Ends}
use libelfin.Dwarf.Expr.Onward.{is_branch, step-Moves, IsReady}

-- No byte of the section is the code of `skip` or of `bra`.
abbrev pub HasNoJump : Section → Type 0
HasNoJump s =
    (p v : ℕ) → s.begin ≤ p → p < s.end → get_elem? s.mem p ≡ some v → (v ≢ 0x2f) × (v ≢ 0x28)

branch_table : every (λ v. not (is_branch (op_of v)) || (v == 0x2f || v == 0x28)) 256 ≡ true
unfolding every op_of
branch_table = refl

branch_codes : (v : ℕ) → v < 256 → v ≢ 0x2f → v ≢ 0x28 → is_branch (op_of v) ≡ false
branch_codes v h not_skip not_bra =
    let t =
      every_below (λ v. not (is_branch (op_of v)) || (v == 0x2f || v == 0x28)) 256 v branch_table
        h in
    elim (Bool-cases (is_branch (op_of v))) [
      | inl is ↦ absurd (ground (arith, rw is at t))
      | inr is_not ↦ is_not
    ]

order_value_byte : (o : ByteOrder) (b : ℕ) → order_value o (b ∷ []) ≡ b
order_value_byte lsb b = omega arith
order_value_byte msb b = omega arith

single_byte :
    (c : Cursor) {v : ℕ} {c' : Cursor}
    → InImage c.sec
    → c.pos < c.sec.end
    → (bs : List ℕ) → Holds c.sec.mem c.pos bs
    → All IsByte bs
    → length bs ≡ 1
    → fixed 1 c ≡ ok (v, c')
    → get_elem? c.sec.mem c.pos ≡ some v
single_byte c img inside [] at_p bytes len e = absurd (omega arith)
single_byte c {v} img inside (b ∷ []) at_p bytes len e =
    let read =
      fixed-order_value c (b ∷ []) bytes at_p img.addressable (omega arith) (omega arith)
        (omega arith) in
    let same : order_value c.sec.ord (b ∷ []) ≡ v =
      ap (λ (r : ℕ × Cursor). r.0) (ok_inj (sym read ∙ e)) in
    at_p.0 ∙ ap some (sym (order_value_byte c.sec.ord b) ∙ same)
single_byte c img inside (b ∷ d ∷ bs) at_p bytes len e = absurd (omega arith)

-- `fixed<ubyte>()` returns the byte at the cursor.
fixed_byte :
    (c : Cursor) {v : ℕ} {c' : Cursor}
    → InImage c.sec
    → fixed 1 c ≡ ok (v, c')
    → get_elem? c.sec.mem c.pos ≡ some v
fixed_byte c {v} {c'} img e =
    let (f, small) = fixed-Forward 1 c img (omega arith) (omega arith) e in
    let (bs, at_p, bytes, len) =
      Holds-range 1 c.sec.mem c.pos img.bytes (omega (arith, f.later, f.inside, img.within)) in
    single_byte c img (omega (arith, f.later, f.inside)) bs at_p bytes len e

round-Forward :
    (ctx : Context) (m : Machine) {m' : Machine}
    → IsReady m
    → m.cur.sec.begin ≤ m.cur.pos
    → HasNoJump m.cur.sec
    → round ctx m ≡ ok m'
    → Forward m.cur m'.cur
unfolding round
round-Forward ctx m {m'} ready from quiet e =
    let ((v, c), read, e1) = >>=-eq-ok (fixed 1 m.cur) _ e in
    let (f, small) = fixed-Forward 1 m.cur ready.image (omega arith) (omega arith) read in
    let (not_skip, not_bra) =
      quiet m.cur.pos v from (omega (arith, f.later, f.inside))
        (fixed_byte m.cur ready.image read) in
    let ready' : IsReady (record m { cur = c }) = record {
      image = subst InImage (sym f.same_section) ready.image;
      inside = omega (arith, f.inside, ap (λ (s : Section). s.end) f.same_section);
    } in
    let o =
      step-Moves ctx (op_of v) (record m { cur = c }) ready' (branch_codes v small not_skip not_bra)
        e1 in
    record {
      same_section = o.same_section ∙ f.same_section;
      later = omega (arith, f.later, o.later);
      inside = omega (arith, f.inside, o.inside, ap (λ (s : Section). s.end) f.same_section);
    }

round-Ends : (ctx : Context) (m : Machine) → ContextEnds ctx → Ends (round ctx m)
unfolding round
round-Ends ctx m h = bind-Ends (fixed 1 m.cur) _ (fixed-Ends 1 m.cur) λ a e. step-Ends ctx _ _ h

run-Ends :
    (fuel : ℕ) (ctx : Context) (m : Machine)
    → ContextEnds ctx
    → IsReady m
    → m.cur.sec.begin ≤ m.cur.pos
    → HasNoJump m.cur.sec
    → m.cur.sec.end - m.cur.pos ≤ fuel
    → Ends (run fuel ctx m)
unfolding run
run-Ends zero ctx m h ready from quiet room =
    rw (le→leb m.cur.sec.end m.cur.pos (omega arith)) (ok-Ends m)
run-Ends (suc fuel) ctx m h ready from quiet room = elim (Bool-cases (at_end m.cur)) [
  | inl done ↦ rw (done, run) (ok-Ends m)
  | inr more ↦
      rw (more, run)
        (bind-Ends (round ctx m) _ (round-Ends ctx m h) λ m' e.
          let f = round-Forward ctx m ready from quiet e in
          let same = ap (λ (s : Section). s.end) f.same_section in
          run-Ends fuel ctx m' h
            (record {
              image = subst InImage (sym f.same_section) ready.image;
              inside = omega (arith, f.inside, same);
            })
            (omega (arith, f.later, from, ap (λ (s : Section). s.begin) f.same_section))
            (subst HasNoJump (sym f.same_section) quiet)
            (omega (arith, f.later, f.inside, same, room)))
]

top_result-Ends : (r : ExprResult) (s : List ℕ) → Ends (top_result r s)
top_result-Ends r [] = λ e. cc
top_result-Ends r (a ∷ s) = ok-Ends _

finish_at-Ends : (t : LocationType) (m : Machine) → Ends (finish_at t m)
finish_at-Ends LocationType.address_ m = top_result-Ends m.result m.stack
finish_at-Ends _ m = ok-Ends _

-- The section of the expression lies in the image too.
module _ (sec : Section) (offset len : ℕ) (img : InImage sec)
    (fits : sec.begin + offset + len ≤ sec.end) where
  expr_begin : (expr_section sec offset len).begin ≡ sec.begin + offset
  expr_begin = let space = img.addressable in omega arith

  expr_end : (expr_section sec offset len).end ≡ sec.begin + offset + len
  expr_end = let space = img.addressable in omega arith

  expr_section-InImage : InImage (expr_section sec offset len)
  expr_section-InImage = record {
    ordered = omega (arith, expr_begin, expr_end);
    within = omega (arith, expr_end, img.within);
    addressable = omega (arith, expr_end, img.addressable);
    bytes = img.bytes;
  }

  initial-IsReady : (arguments : List ℕ) → IsReady (initial (expr_section sec offset len) arguments)
  initial-IsReady arguments = record {
    image = expr_section-InImage;
    inside = omega (arith, expr_begin, expr_end, img.addressable);
  }

-- An expression of `len` bytes inside a section of the image, none of which is the code of a jump,
-- is evaluated to an outcome of the program in at most `len` rounds, whatever the arguments are.
pub evaluate-Ends :
    (fuel : ℕ) (ctx : Context) (sec : Section) (offset len : ℕ) (arguments : List ℕ)
    → ContextEnds ctx
    → InImage sec
    → sec.begin + offset + len ≤ sec.end
    → HasNoJump (expr_section sec offset len)
    → len ≤ fuel
    → Ends (evaluate fuel ctx sec offset len arguments)
unfolding evaluate
evaluate-Ends fuel ctx sec offset len arguments h img fits quiet room =
    let m = initial (expr_section sec offset len) arguments in
    if-Ends (at_end m.cur) _ _ (ok-Ends _) (
      bind-Ends (run fuel ctx m) _
        (run-Ends fuel ctx m h (initial-IsReady sec offset len img fits arguments)
          (omega (arith, expr_begin sec offset len img fits, img.addressable)) quiet
          (omega (
            arith,
            expr_begin sec offset len img fits,
            expr_end sec offset len img fits,
            img.addressable,
          )))
        λ m' e. finish_at-Ends m'.result.location_type m')
