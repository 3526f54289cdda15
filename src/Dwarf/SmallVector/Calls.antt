-- ===== src/Dwarf/SmallVector/Calls.antt =====
-- dwarf/small_vector.hh: the calls implement those of a list.
use mathlib.Core.Path.{subst}
use libelfin.Prelude.{
  ℕ, zero, suc, ◌+◌, ◌-◌, ◌<◌, ◌≡◌, refl, sym, ap, ◌∙◌, ◌⊎◌, inl, inr, true, false, Option, none,
  some, if◌then◌else◌, List, [], ◌∷◌, ◌++◌, arith, ltb, ◌==◌, length, get_elem?, set, length-set,
  get_elem?-set_ne, lt→ltb, length-append,
}
use libelfin.Result.{Result, ok, err, undefined, bad_alloc}
use libelfin.Dwarf.SmallVector.{
  SmallVector, capacity, put_end, grow, push_back, at, revat, push_revat, pop_back,
}
use libelfin.Dwarf.SmallVector.Refine.{
  Holds, index_lt, grow-Holds, grow_cases, reserve-Holds, put_end-Holds, reserve_returns,
}

-- The call returns a vector for the list, or the allocator refuses.
abbrev pub Grants : (SmallVector → Type 0) → Result SmallVector → Type 0
Grants P r = ((w : SmallVector) × (r ≡ ok w) × P w) ⊎ (r ≡ err bad_alloc)

at_read :
    (i x : ℕ) (v : SmallVector) (xs : List ℕ) → Holds v xs → get_elem? xs i ≡ some x → at i v ≡ ok x
unfolding at
at_read i x v xs h e = rw (h.places i x e) refl

revat_read :
    (n x : ℕ) (v : SmallVector) (xs : List ℕ)
    → Holds v xs
    → n < length xs
    → get_elem? xs (length xs - 1 - n) ≡ some x
    → revat n v ≡ ok x
unfolding revat
revat_read n x v xs h lt e =
    let inside : ltb n v.count ≡ true = lt→ltb n v.count (omega (arith, h.size)) in
    rw inside (ap (λ (k : ℕ). at (k - 1 - n) v) h.size ∙ at_read (length xs - 1 - n) x v xs h e)

append_before :
    (xs : List ℕ) (y i x : ℕ) → get_elem? xs i ≡ some x → get_elem? (xs ++ (y ∷ [])) i ≡ some x
append_before [] y i x e = absurd (cc)
append_before (z ∷ xs) y zero x e = e
append_before (z ∷ xs) y (suc i) x e = append_before xs y i x e

pop_back-Holds :
    (v : SmallVector) (xs : List ℕ) (y : ℕ)
    → Holds v (xs ++ (y ∷ []))
    → (w : SmallVector) × (pop_back v ≡ ok w) × Holds w xs
unfolding pop_back
pop_back-Holds v xs y h =
    let count = h.size ∙ length-append xs (y ∷ []) in
    let some_element : (v.count == 0) ≡ false = ground (arith, count) in
    let last : v.count - 1 ≡ length xs = omega (arith, count) in
    let w : SmallVector = record v {
      slots = set v.slots (v.count - 1) none;
      count = v.count - 1;
    } in
    (
      w,
      rw some_element refl,
      record {
        size = last;
        fits = omega (arith, length-set v.slots (v.count - 1) none, h.fits);
        places = λ i x e.
            get_elem?-set_ne v.slots (v.count - 1) i none (omega (arith, last, index_lt xs i x e))
            ∙ h.places i x (append_before xs y i x e);
      },
    )

push_back-Grants :
    (limit y : ℕ) (v : SmallVector) (xs : List ℕ)
    → length xs < 0x8000_0000_0000_0000
    → Holds v xs
    → Grants (λ w. Holds w (xs ++ (y ∷ []))) (push_back limit y v)
unfolding push_back
push_back-Grants limit y v xs few h =
    elim (reserve_returns limit (v.count + 1) v (omega (arith, h.size))) [
      | inr refused ↦ inr (rw refused refl)
      | inl (w, e) ↦
          let (k, room, same) = reserve-Holds limit (v.count + 1) v xs h (omega arith) w e in
          inl (put_end y w, rw e refl, put_end-Holds w xs y k (omega (arith, room, same)))
    ]

-- On a vector that holds a list of less than 2 ^ 63 elements, `push_back` gives one that holds the
-- list with the element behind it, unless the allocator refuses; `pop_back` gives one that holds
-- the list without its last element; and `at` and `revat` read the elements of the list, counted
-- from either end.
pub small_vector_refines :
    (limit y : ℕ) (v : SmallVector) (xs : List ℕ)
    → length xs < 0x8000_0000_0000_0000
    → Holds v xs
    → Grants (λ w. Holds w (xs ++ (y ∷ []))) (push_back limit y v)
      × ((ys : List ℕ) (z : ℕ)
          → xs ≡ ys ++ (z ∷ [])
          → (w : SmallVector) × (pop_back v ≡ ok w) × Holds w ys)
      × ((i x : ℕ)
          → get_elem? xs i ≡ some x
          → (at i v ≡ ok x) × (revat (length xs - 1 - i) v ≡ ok x))
small_vector_refines limit y v xs few h = (
  push_back-Grants limit y v xs few h,
  λ ys z e. pop_back-Holds v ys z (subst (Holds v) e h),
  λ i x e.
      let lt = index_lt xs i x e in
      let back : i ≡ length xs - 1 - (length xs - 1 - i) = omega arith in
      (
        at_read i x v xs h e,
        revat_read (length xs - 1 - i) x v xs h (omega arith) (ap (get_elem? xs) (sym back) ∙ e),
      ),
)

-- Pushing a copy of the n-th element from the end onto a vector that holds a list, as DW_OP_dup,
-- DW_OP_over and DW_OP_pick do, reads memory that was just freed if the vector is full and has
-- outgrown its buffer, unless the allocator refuses; on any other vector it adds the element,
-- unless the allocator refuses.
pub push_revat_cases :
    (limit n x : ℕ) (v : SmallVector) (xs : List ℕ)
    → length xs < 0x8000_0000_0000_0000
    → Holds v xs
    → n < length xs
    → get_elem? xs (length xs - 1 - n) ≡ some x
    → (v.external ≡ true
        → capacity v ≡ length xs
        → (push_revat limit n v ≡ err undefined) ⊎ (push_revat limit n v ≡ err bad_alloc))
      × ((v.external ≡ false) ⊎ (length xs < capacity v)
          → Grants (λ w. Holds w (xs ++ (x ∷ []))) (push_revat limit n v))
unfolding push_revat
push_revat_cases limit n x v xs few h lt e =
    let inside : ltb n v.count ≡ true = lt→ltb n v.count (omega (arith, h.size)) in
    let place : get_elem? v.slots (v.count - 1 - n) ≡ some (some x) =
      ap (λ (k : ℕ). get_elem? v.slots (k - 1 - n)) h.size ∙ h.places (length xs - 1 - n) x e in
    let pushed =
      λ (w : SmallVector) (o : Option (List (Option ℕ)))
          (g : grow limit (v.count + 1) v ≡ ok (w, o)).
        let (k, room, same) = grow-Holds limit (v.count + 1) v xs h (omega arith) (w, o) g in
        put_end-Holds w xs x k (omega (arith, room, same)) in
    elim (grow_cases limit (v.count + 1) v (omega (arith, h.size))) [
      | inl (room, e) ↦ (
        λ outside tight. absurd (omega (arith, room, tight, h.size)),
        λ apart. inl (put_end x v, rw (inside, e, place) refl, pushed v (some v.slots) e),
      )
      | inr (inl (short, (w, e))) ↦ (
        λ outside tight. inl (rw (inside, e, outside) refl),
        λ apart. elim apart [
          | inl buffer ↦ inl (
            put_end x w,
            rw (inside, e, buffer, place) refl,
            pushed w (if v.external then none else some v.slots) e,
          )
          | inr room ↦ absurd (omega (arith, room, short, h.size))
        ],
      )
      | inr (inr e) ↦
          (λ outside tight. inr (rw (inside, e) refl), λ apart. inr (rw (inside, e) refl))
    ]
