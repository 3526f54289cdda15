-- ===== src/Dwarf/SmallVector/Refine.antt =====
-- dwarf/small_vector.hh: what growing and writing at the end do to the list in the vector.
use libelfin.Prelude.{
  ℕ, zero, suc, ◌+◌, ◌*◌, ◌%◌, ◌^◌, ◌≤◌, ◌<◌, ◌≡◌, refl, ap, ◌∙◌, ◌⊎◌, inl, inr, true, false,
  Option, none, some, List, [], ◌∷◌, ◌++◌, arith, ltb, leb, ◌==◌, if◌then◌else◌, length, get_elem?,
  length-set, length-replicate, get_elem?-set_self, get_elem?-set_ne, Bool-cases, leb→le, ltb→lt,
  length-append,
}
use libelfin.Result.{ok, err, bad_alloc, guard, Gives, ok-Gives, bind-Gives}
use libelfin.Word.{u64_mod}
use libelfin.Dwarf.SmallVector.{SmallVector, capacity, double, copy_slots, grow, reserve, put_end}

-- The elements of the list stand in the first places.
pub record Holds (v : SmallVector) (xs : List ℕ) : Type 0 where
  pub size : v.count ≡ length xs
  pub fits : v.count ≤ capacity v
  pub places : (i x : ℕ) → get_elem? xs i ≡ some x → get_elem? v.slots i ≡ some (some x)

pub length-copy_slots :
    (n target : ℕ) (src : List (Option ℕ)) → length (copy_slots n target src) ≡ target
unfolding copy_slots
length-copy_slots zero target src = length-replicate target none
length-copy_slots (suc n) zero src = refl
length-copy_slots (suc n) (suc target) [] = omega (arith, length-copy_slots n target [])
length-copy_slots (suc n) (suc target) (x ∷ src) = omega (arith, length-copy_slots n target src)

pub get_elem?-copy_slots :
    (n target i : ℕ) (src : List (Option ℕ)) (y : Option ℕ)
    → i < n
    → n ≤ target
    → get_elem? src i ≡ some y
    → get_elem? (copy_slots n target src) i ≡ some y
unfolding copy_slots
get_elem?-copy_slots zero target i src y lt le e = absurd (omega arith)
get_elem?-copy_slots (suc n) zero i src y lt le e = absurd (omega arith)
get_elem?-copy_slots (suc n) (suc target) i [] y lt le e = absurd (cc)
get_elem?-copy_slots (suc n) (suc target) zero (x ∷ src) y lt le e = e
get_elem?-copy_slots (suc n) (suc target) (suc i) (x ∷ src) y lt le e =
    get_elem?-copy_slots n target i src y (omega arith) (omega arith) e

pub index_lt : (xs : List ℕ) (i x : ℕ) → get_elem? xs i ≡ some x → i < length xs
index_lt [] i x e = absurd (cc)
index_lt (y ∷ xs) zero x e = omega arith
index_lt (y ∷ xs) (suc i) x e = omega (arith, index_lt xs i x e)

double-enough : (rounds n target : ℕ) → Gives (λ t. n ≤ t) (double rounds n target)
unfolding double
double-enough zero n target = λ t e. absurd (cc)
double-enough (suc rounds) n target = elim (Bool-cases (ltb target n)) [
  | inl small ↦ rw small (double-enough rounds n ((target * 2) % u64_mod))
  | inr large ↦ rw large (ok-Gives (λ t. n ≤ t) target (ground (arith, large)))
]

abbrev pub Grown : ℕ → SmallVector → List ℕ → SmallVector → Type 0
Grown n v xs w = Holds w xs × (n ≤ capacity w) × (w.count ≡ v.count)

-- Growing keeps the elements and makes the room that was asked for.
pub grow-Holds :
    (limit n : ℕ) (v : SmallVector) (xs : List ℕ)
    → Holds v xs
    → v.count ≤ n
    → Gives (λ a. Grown n v xs a.0) (grow limit n v)
unfolding grow
grow-Holds limit n v xs h room = elim (Bool-cases (leb n (capacity v))) [
  | inl enough ↦ rw enough (ok-Gives P (v, some v.slots) (h, leb→le _ _ enough, refl))
  | inr more ↦ rw more (
      bind-Gives P (double 65 n (if capacity v == 0 then 1 else capacity v)) _ λ target e.
        let large = double-enough 65 n (if capacity v == 0 then 1 else capacity v) target e in
        bind-Gives P (guard (leb target limit) bad_alloc) _ λ u g.
          let long = length-copy_slots v.count target v.slots in
          ok-Gives P _ (
            record {
              size = h.size;
              fits = omega (arith, long, large, room);
              places = λ i x at_i.
                  get_elem?-copy_slots v.count target i v.slots (some x)
                    (omega (arith, index_lt xs i x at_i, h.size)) (omega (arith, large, room))
                    (h.places i x at_i);
            },
            omega (arith, long, large),
            refl,
          ))
]
  where
    P : SmallVector × Option (List (Option ℕ)) → Type 0
    P = λ a. Grown n v xs a.0

pub reserve-Holds :
    (limit n : ℕ) (v : SmallVector) (xs : List ℕ)
    → Holds v xs
    → v.count ≤ n
    → Gives (Grown n v xs) (reserve limit n v)
unfolding reserve
reserve-Holds limit n v xs h room =
    bind-Gives (Grown n v xs) (grow limit n v) _
      λ a e. ok-Gives (Grown n v xs) a.0 (grow-Holds limit n v xs h room a e)

snoc_cases :
    (xs : List ℕ) (y i x : ℕ)
    → get_elem? (xs ++ (y ∷ [])) i ≡ some x
    → (get_elem? xs i ≡ some x) ⊎ ((i ≡ length xs) × (x ≡ y))
snoc_cases [] y zero x e = inr (refl, cc)
snoc_cases [] y (suc i) x e = absurd (cc)
snoc_cases (z ∷ xs) y zero x e = inl e
snoc_cases (z ∷ xs) y (suc i) x e = elim (snoc_cases xs y i x e) [
  | inl h ↦ inl h
  | inr (at_end, is) ↦ inr (omega arith, is)
]

pub put_end-Holds :
    (v : SmallVector) (xs : List ℕ) (y : ℕ)
    → Holds v xs
    → v.count + 1 ≤ capacity v
    → Holds (put_end y v) (xs ++ (y ∷ []))
put_end-Holds v xs y h room =
    let long = length-set v.slots v.count (some y) in
    record {
      size = omega (arith, h.size, length-append xs (y ∷ []));
      fits = omega (arith, long, room);
      places = λ i x e. elim (snoc_cases xs y i x e) [
        | inl before ↦
            let lt = index_lt xs i x before in
            get_elem?-set_ne v.slots v.count i (some y) (omega (arith, h.size))
            ∙ h.places i x before
        | inr (at_end, is) ↦
            let here : i ≡ v.count = omega (arith, h.size) in
            rw (here, is) (get_elem?-set_self v.slots v.count (some y) (omega (arith, room)))
      ];
    }

double_returns :
    (k n target : ℕ)
    → n ≤ 0x8000_0000_0000_0000
    → n ≤ target * 2 ^ k
    → (t : ℕ) × (double (suc k) n target ≡ ok t)
unfolding double
double_returns zero n target bound reach =
    let large : ltb target n ≡ false = ground (arith, reach) in (target, rw large refl)
double_returns (suc k) n target bound reach = elim (Bool-cases (ltb target n)) [
  | inr large ↦ (target, rw large refl)
  | inl small ↦
      let less = ltb→lt target n small in
      let twice : (target * 2) % u64_mod ≡ target * 2 = omega arith in
      let doubled : 2 ^ suc k ≡ 2 * 2 ^ k = omega arith in
      rw (small, twice)
        (double_returns k n (target * 2) bound
          (omega (arith, reach, ap (λ (t : ℕ). target * t) doubled)))
]

-- The three outcomes of growing, with what is left of the old memory.
pub grow_cases :
    (limit n : ℕ) (v : SmallVector)
    → n ≤ 0x8000_0000_0000_0000
    → ((n ≤ capacity v) × (grow limit n v ≡ ok (v, some v.slots)))
      ⊎ ((capacity v < n)
          × ((w : SmallVector) × (grow limit n v
                ≡ ok (w, if v.external then none else some v.slots))))
      ⊎ (grow limit n v ≡ err bad_alloc)
unfolding grow
grow_cases limit n v bound = elim (Bool-cases (leb n (capacity v))) [
  | inl enough ↦ inl (leb→le n (capacity v) enough, rw enough refl)
  | inr more ↦
      let start = if capacity v == 0 then 1 else capacity v in
      let some_place : 1 ≤ start = ground arith in
      let (target, doubled) = double_returns 64 n start bound (omega (arith, some_place)) in
      elim (Bool-cases (leb target limit)) [
        | inl granted ↦ inr (
            inl (
              ground (arith, more),
              (
                record {
                  external = true;
                  slots = copy_slots v.count target v.slots;
                  count = v.count;
                },
                rw (more, doubled, granted) refl,
              ),
            ))
        | inr refused ↦ inr (inr (rw (more, doubled, refused) refl))
      ]
]

pub reserve_returns :
    (limit n : ℕ) (v : SmallVector)
    → n ≤ 0x8000_0000_0000_0000
    → ((w : SmallVector) × (reserve limit n v ≡ ok w)) ⊎ (reserve limit n v ≡ err bad_alloc)
unfolding reserve
reserve_returns limit n v bound = elim (grow_cases limit n v bound) [
  | inl (room, e) ↦ inl (v, rw e refl)
  | inr (inl (short, (w, e))) ↦ inl (w, rw e refl)
  | inr (inr e) ↦ inr (rw e refl)
]
