-- ===== src/Dwarf/Die/Siblings.antt =====
-- dwarf/die.cc: `operator++` against the tree of entries.
use mathlib.Core.Path.{subst}
use libelfin.Prelude.{
  ℕ, zero, suc, ◌+◌, ◌≤◌, ◌≡◌, refl, sym, ap, ◌∙◌, inl, inr, Bool, true, false, Option, none, some,
  arith, ◌==◌, Bool-cases,
}
use libelfin.Result.{Result, ok, >>=-eq-ok, ok_inj, Gives, ok-Gives, bind-Gives, if-Gives}
use libelfin.Dwarf.Cursor.{cursor_at, get_section_offset, uleb128}
use libelfin.Dwarf.Attribute
use libelfin.Dwarf.Abbrev.{AbbrevEntry}
use libelfin.Dwarf.Abbrev.Table.{get_abbrev}
use libelfin.Dwarf.Units.{UnitImpl}
use libelfin.Dwarf.File.{Dwarf}
use libelfin.Dwarf.Die.{
  Die, die_of, abbrevs_of, read_attrs, read, has, follow, step_over, is_end, walk, increment,
}

-- The same entry: one that ends a list keeps the tag and the attributes read before.
pub record Same (z x : Die) : Type 0 where
  pub cu : x.cu ≡ z.cu
  pub abbrev_ : x.abbrev_ ≡ z.abbrev_
  pub offset : x.offset ≡ z.offset
  pub next : x.next ≡ z.next
  pub whole : is_end z ≡ false → x ≡ z

Same-refl : (z : Die) → Same z z
Same-refl z = record { cu = refl; abbrev_ = refl; offset = refl; next = refl; whole = λ h. refl }

-- A read into a used DIE gives the same entry as one into a new DIE.
read-Same :
    (limit : ℕ) (d : Dwarf) (off : ℕ) (y z : Die)
    → read limit d off (die_of y.cu) ≡ ok z
    → (x : Die) × (read limit d off y ≡ ok x) × Same z x
unfolding read
read-Same limit d off y z e =
    let (a, code, e1) = >>=-eq-ok (uleb128 (cursor_at y.cu.subsec off)) _ e in
    elim (Bool-cases (a.0 == 0)) [
      | inl last ↦
          let stop : record (die_of y.cu) {
            offset = off;
            abbrev_ = none;
            next = get_section_offset a.1;
          }
              ≡ z =
            ok_inj (rw last at e1) in
          (
            record y { offset = off; abbrev_ = none; next = get_section_offset a.1 },
            rw (code, last) refl,
            record {
              cu = ap (λ (w : Die). w.cu) stop;
              abbrev_ = ap (λ (w : Die). w.abbrev_) stop;
              offset = ap (λ (w : Die). w.offset) stop;
              next = ap (λ (w : Die). w.next) stop;
              whole = λ more. let gone : is_end z ≡ true = ap is_end (sym stop) in absurd (cc);
            },
          )
      | inr more ↦
          let (t, table, e2) = >>=-eq-ok (abbrevs_of limit d y.cu) _ (rw more at e1) in
          let (b, found, e3) = >>=-eq-ok (get_abbrev t a.0) _ e2 in
          let (r, laid, e4) = >>=-eq-ok (read_attrs b.attributes a.1) _ e3 in
          (
            z,
            rw (code, more, table, found, laid) e4,
            record { cu = refl; abbrev_ = refl; offset = refl; next = refl; whole = λ h. refl },
          )
    ]

read-cu :
    (limit : ℕ) (d : Dwarf) (off : ℕ) (y : Die) → Gives (λ x. x.cu ≡ y.cu) (read limit d off y)
unfolding read
read-cu limit d off y = bind-Gives P (uleb128 (cursor_at y.cu.subsec off)) _ λ a e.
    if-Gives P (a.0 == 0) _ _ (ok-Gives P _ refl) (
      bind-Gives P (abbrevs_of limit d y.cu) _ λ t e1.
        bind-Gives P (get_abbrev t a.0) _
          λ b e2. bind-Gives P (read_attrs b.attributes a.1) _ λ r e3. ok-Gives P _ refl)
  where
    P : Die → Type 0
    P = λ x. x.cu ≡ y.cu

module _ (limit : ℕ) (d : Dwarf) (die : Die) (past : Result Die) (o : Option AbbrevEntry)
    (a : AbbrevEntry) where
  step_over_leaf :
      o ≡ some a → a.children ≡ false → step_over limit d die past o ≡ read limit d die.next die
  step_over_leaf isa childless = rw (isa, childless) refl

  step_over_parent :
      o ≡ some a
      → a.children ≡ true
      → has die Attribute.sibling ≡ false
      → step_over limit d die past o ≡ past
  step_over_parent isa children unlinked = rw (isa, children, unlinked) refl

  step_over_linked :
      o ≡ some a
      → a.children ≡ true
      → has die Attribute.sibling ≡ true
      → step_over limit d die past o ≡ follow limit d die Attribute.sibling
  step_over_linked isa children link = rw (isa, children, link) refl

step_over_end :
    (limit : ℕ) (d : Dwarf) (die : Die) (past : Result Die) (o : Option AbbrevEntry)
    → o ≡ none
    → step_over limit d die past o ≡ ok die
step_over_end limit d die past o e = rw e refl

is_end-none : (die : Die) → die.abbrev_ ≡ none → is_end die ≡ true
is_end-none die e = rw e refl

module _ (limit : ℕ) (d : Dwarf) (cu : UnitImpl) where
  -- The bytes of the unit from one offset to another are an entry with all below it (`false`), or
  -- a list of such entries with the one that ends it (`true`). A sibling pointer leads to where
  -- the list of the children ends.
  pub data Spans : Bool → ℕ → ℕ → Type 0 where
    leaf :
        (off : ℕ) (x : Die) (a : AbbrevEntry)
        → read limit d off (die_of cu) ≡ ok x
        → x.abbrev_ ≡ some a
        → a.children ≡ false
        → Spans false off x.next
    parent :
        (off e : ℕ) (x : Die) (a : AbbrevEntry)
        → read limit d off (die_of cu) ≡ ok x
        → x.abbrev_ ≡ some a
        → a.children ≡ true
        → has x Attribute.sibling ≡ false
        → Spans true x.next e
        → Spans false off e
    linked :
        (off e : ℕ) (x : Die) (a : AbbrevEntry)
        → read limit d off (die_of cu) ≡ ok x
        → x.abbrev_ ≡ some a
        → a.children ≡ true
        → has x Attribute.sibling ≡ true
        → follow limit d x Attribute.sibling ≡ read limit d e (die_of cu)
        → Spans true x.next e
        → Spans false off e
    stop :
        (off : ℕ) (x : Die)
        → read limit d off (die_of cu) ≡ ok x
        → x.abbrev_ ≡ none
        → Spans true off x.next
    cons : (off m e : ℕ) → Spans false off m → Spans true m e → Spans true off e

  -- The entries of a span.
  unfoldable pub weight : (b : Bool) (off e : ℕ) → Spans b off e → ℕ
  weight b off e (leaf _ x a r h k) = 1
  weight b off e (parent _ _ x a r h k n s) = suc (weight true _ _ s)
  weight b off e (linked _ _ x a r h k n f s) = suc (weight true _ _ s)
  weight b off e (stop _ x r h) = 1
  weight b off e (cons _ m _ s t) = weight false _ _ s + weight true _ _ t

  weight_pos : (b : Bool) (off e : ℕ) (s : Spans b off e) → 1 ≤ weight b off e s
  unfolding weight
  weight_pos b off e (leaf _ x a r h k) = omega arith
  weight_pos b off e (parent _ _ x a r h k n s) = omega arith
  weight_pos b off e (linked _ _ x a r h k n f s) = omega arith
  weight_pos b off e (stop _ x r h) = omega arith
  weight_pos b off e (cons _ m _ s t) = omega (arith, weight_pos false _ _ s)

  -- The entry that a span begins with.
  first :
      (b : Bool) (off e : ℕ)
      → Spans b off e
      → (x : Die) × (read limit d off (die_of cu) ≡ ok x) × (b ≡ false → is_end x ≡ false)
  first b off e (leaf _ x a r h k) = (x, r, λ p. rw h refl)
  first b off e (parent _ _ x a r h k n s) = (x, r, λ p. rw h refl)
  first b off e (linked _ _ x a r h k n f s) = (x, r, λ p. rw h refl)
  first b off e (stop _ x r h) = (x, r, λ p. absurd (cc))
  first b off e (cons _ m _ s t) = let (x, r, h) = first false _ _ s in (x, r, λ p. h refl)

  -- The outcome is that of a read at the offset, into some DIE of the unit.
  abbrev Lands : ℕ → Result Die → Type 0
  Lands e r = (y : Die) × (y.cu ≡ cu) × (r ≡ read limit d e y)

  -- A DIE read at the offset, up to what stays from earlier reads.
  abbrev Fresh : ℕ → Die → Type 0
  Fresh off x = (z : Die) × (read limit d off (die_of cu) ≡ ok z) × Same z x

  refresh :
      (off : ℕ) (y z : Die)
      → y.cu ≡ cu
      → read limit d off (die_of cu) ≡ ok z
      → (x : Die) × (read limit d off y ≡ ok x) × Fresh off x
  refresh off y z same e =
      let (x, r, s) =
        read-Same limit d off y z (ap (λ (u : UnitImpl). read limit d off (die_of u)) same ∙ e) in
      (x, r, (z, e, s))

  -- What a walk does at an entry, and at the first of a list.
  abbrev Goal : Bool → ℕ → ℕ → ℕ → Type 0
  Goal false fuel off e =
      (x : Die) → read limit d off (die_of cu) ≡ ok x → Lands e (walk fuel false limit d x)
  Goal true fuel off e =
      (x : Die)
      → Fresh off x
      → (last : Die) × (walk fuel true limit d x ≡ ok last) × (last.next ≡ e)

  walks :
      (b : Bool) (off e : ℕ) (s : Spans b off e) (fuel : ℕ)
      → weight b off e s ≤ fuel
      → Goal b fuel off e
  unfolding weight walk
  walks b off e s zero h = absurd (omega (arith, weight_pos b off e s))
  walks b off e (leaf _ y a r isa childless) (suc fuel) h = λ x read_x.
      let same : y ≡ x = ok_inj (sym r ∙ read_x) in
      subst (λ w. Lands y.next (walk (suc fuel) false limit d w)) same
        (
          y,
          read-cu limit d off (die_of cu) y r,
          step_over_leaf limit d y _ y.abbrev_ a isa childless,
        )
  walks b off e (parent _ _ y a r isa children unlinked s) (suc fuel) h = λ x read_x.
      let same : y ≡ x = ok_inj (sym r ∙ read_x) in
      let mine = read-cu limit d off (die_of cu) y r in
      let (z, read_z, _) = first true _ _ s in
      let (last, over, at_e) = walks true _ _ s fuel (omega arith) z (z, read_z, Same-refl z) in
      let read_sub = ap (λ (u : UnitImpl). read limit d y.next (die_of u)) mine ∙ read_z in
      subst (λ w. Lands e (walk (suc fuel) false limit d w)) same
        (
          y,
          mine,
          step_over_parent limit d y _ y.abbrev_ a isa children unlinked
              ∙ rw (read_sub, over, at_e) refl,
        )
  walks b off e (linked _ _ y a r isa children link leads s) (suc fuel) h = λ x read_x.
      let same : y ≡ x = ok_inj (sym r ∙ read_x) in
      subst (λ w. Lands e (walk (suc fuel) false limit d w)) same
        (die_of cu, refl, step_over_linked limit d y _ y.abbrev_ a isa children link ∙ leads)
  walks b off e (stop _ y r ends) (suc fuel) h = λ x (z, read_z, same).
      let is : y ≡ z = ok_inj (sym r ∙ read_z) in
      let over : x.abbrev_ ≡ none = same.abbrev_ ∙ ap (λ (w : Die). w.abbrev_) (sym is) ∙ ends in
      (x, rw (is_end-none x over) refl, same.next ∙ ap (λ (w : Die). w.next) (sym is))
  walks b off e (cons _ m _ s t) (suc fuel) h = λ x (z, read_z, same).
      let (y, read_y, goes_on) = first false _ _ s in
      let is : y ≡ z = ok_inj (sym read_y ∙ read_z) in
      let whole : x ≡ z = same.whole (ap is_end (sym is) ∙ goes_on refl) in
      let (k, mine, lands) =
        walks false _ _ s fuel (omega (arith, weight_pos true _ _ t)) z read_z in
      let (n, read_n, _) = first true _ _ t in
      let (sub, read_sub, fresh) = refresh m k n mine read_n in
      let (last, over, at_e) =
        walks true _ _ t fuel (omega (arith, weight_pos false _ _ s)) sub fresh in
      let more : is_end x ≡ false = ap is_end (whole ∙ sym is) ∙ goes_on refl in
      let step : walk fuel false limit d x ≡ ok sub =
        ap (walk fuel false limit d) whole ∙ lands ∙ read_sub in
      (last, rw (more, step) over, at_e)

  -- Where a unit's bytes are a tree of entries, and sibling pointers lead to where the children
  -- end, `++` of the iterator leads from an entry to the one behind its last descendant, with or
  -- without a sibling pointer, within as many rounds as the tree has entries.
  pub increment_lands :
      (off e fuel : ℕ) (x z : Die) (s : Spans false off e)
      → weight false off e s ≤ fuel
      → read limit d off (die_of cu) ≡ ok x
      → read limit d e (die_of cu) ≡ ok z
      → (x' : Die) × (increment fuel limit d x ≡ ok x') × Same z x'
  unfolding increment walk
  increment_lands off e fuel x z s enough read_x read_z =
      let (y, mine, lands) = walks false off e s fuel enough x read_x in
      let (x', read_x', same) =
        read-Same limit d e y z (ap (λ (u : UnitImpl). read limit d e (die_of u)) mine ∙ read_z) in
      (x', lands ∙ read_x', same)
