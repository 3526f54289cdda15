-- ===== src/Tests/Vectors.antt =====
-- A vector with two places inside that has grown to four.
use libelfin.Prelude.{
  ℕ, zero, suc, ap, ◌-◌, ◌<◌, ◌≡◌, refl, ◌⊎◌, true, false, some, List, [], ◌∷◌, ◌++◌, arith, length,
  get_elem?,
}
use libelfin.Result.{ok, err, undefined, bad_alloc}
use libelfin.Dwarf.SmallVector.{SmallVector, capacity, push_back, push_revat, pop_back, at, revat}
use libelfin.Dwarf.SmallVector.Refine.{Holds}
use libelfin.Dwarf.SmallVector.Calls.{Grants, small_vector_refines, push_revat_cases}

abbrev full : SmallVector
full = record { external = true; slots = some 7 ∷ some 8 ∷ some 9 ∷ some 10 ∷ []; count = 4 }

abbrev elements : List ℕ
elements = 7 ∷ 8 ∷ 9 ∷ 10 ∷ []

full-Holds : Holds full elements
full-Holds = record { size = refl; fits = omega arith; places = places }
  where
    places : (i x : ℕ) → get_elem? elements i ≡ some x → get_elem? full.slots i ≡ some (some x)
    places zero x e = ap some e
    places (suc zero) x e = ap some e
    places (suc (suc zero)) x e = ap some e
    places (suc (suc (suc zero))) x e = ap some e
    places (suc (suc (suc (suc i)))) x e = absurd (cc)

small_vector_refines_example :
    Grants (λ w. Holds w (elements ++ (11 ∷ []))) (push_back 100 11 full)
    × ((ys : List ℕ) (z : ℕ)
        → elements ≡ ys ++ (z ∷ [])
        → (w : SmallVector) × (pop_back full ≡ ok w) × Holds w ys)
    × ((i x : ℕ)
        → get_elem? elements i ≡ some x
        → (at i full ≡ ok x) × (revat (length elements - 1 - i) full ≡ ok x))
small_vector_refines_example = small_vector_refines 100 11 full elements (omega arith) full-Holds

push_revat_cases_example :
    (true ≡ true
      → capacity full ≡ 4
      → (push_revat 100 1 full ≡ err undefined) ⊎ (push_revat 100 1 full ≡ err bad_alloc))
    × ((true ≡ false) ⊎ (4 < capacity full)
        → Grants (λ w. Holds w (elements ++ (9 ∷ []))) (push_revat 100 1 full))
push_revat_cases_example =
    push_revat_cases 100 1 9 full elements (omega arith) full-Holds (omega arith) refl
