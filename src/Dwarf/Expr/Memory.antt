-- ===== src/Dwarf/Expr/Memory.antt =====
-- The stack of the evaluator against the small_vector that the code keeps it in.
use libelfin.Prelude.{
  ℕ, zero, suc, ◌-◌, ◌<◌, ◌≡◌, refl, ap, ◌∙◌, ◌⊎◌, inl, inr, not, some, List, [], ◌∷◌, ◌++◌, arith,
  leb, leb→le, ◌==◌, length, length-append, get_elem?, Bool-cases,
}
use libelfin.Result.{ok, err, undefined, bad_alloc}
use libelfin.Dwarf.Machine.{push_own}
use libelfin.Dwarf.SmallVector.{SmallVector, capacity, push_revat}
use libelfin.Dwarf.SmallVector.Refine.{Holds}
use libelfin.Dwarf.SmallVector.Calls.{Grants, push_revat_cases}

-- The entries from the bottom to the top, as they stand in the vector.
abbrev pub from_bottom : List ℕ → List ℕ
from_bottom [] = []
from_bottom (a ∷ s) = from_bottom s ++ (a ∷ [])

length-from_bottom : (s : List ℕ) → length (from_bottom s) ≡ length s
length-from_bottom [] = refl
length-from_bottom (a ∷ s) =
    omega (arith, length-append (from_bottom s) (a ∷ []), length-from_bottom s)

get_elem?-last : (xs : List ℕ) (a : ℕ) → get_elem? (xs ++ (a ∷ [])) (length xs) ≡ some a
get_elem?-last [] a = refl
get_elem?-last (x ∷ xs) a = get_elem?-last xs a

get_elem?-before :
    (xs : List ℕ) (a i x : ℕ) → get_elem? xs i ≡ some x → get_elem? (xs ++ (a ∷ [])) i ≡ some x
get_elem?-before [] a i x e = absurd (cc)
get_elem?-before (y ∷ xs) a zero x e = e
get_elem?-before (y ∷ xs) a (suc i) x e = get_elem?-before xs a i x e

get_elem?-from_bottom :
    (s : List ℕ) (n x : ℕ)
    → n < length s
    → get_elem? s n ≡ some x
    → get_elem? (from_bottom s) (length s - 1 - n) ≡ some x
get_elem?-from_bottom [] n x lt e = absurd (cc)
get_elem?-from_bottom (a ∷ s) zero x lt e =
    let last : length (a ∷ s) - 1 - 0 ≡ length (from_bottom s) =
      omega (arith, length-from_bottom s) in
    rw last (get_elem?-last (from_bottom s) a ∙ e)
get_elem?-from_bottom (a ∷ s) (suc n) x lt e =
    let place : length (a ∷ s) - 1 - suc n ≡ length s - 1 - n = omega arith in
    rw place (
      get_elem?-before (from_bottom s) a (length s - 1 - n) x
        (get_elem?-from_bottom s n x (omega arith) e))

-- The vector holds the stack in as many places, and 8 are the buffer inside.
pub record Keeps (v : SmallVector) (room : ℕ) (s : List ℕ) : Type 0 where
  pub holds : Holds v (from_bottom s)
  pub places : capacity v ≡ room
  pub inside : v.external ≡ not (room == 8)

-- On the vector that keeps a stack, pushing an entry of its own is undefined, or refused by the
-- allocator, where the model says so; everywhere else the vector then holds the stack with the entry
-- on top, or the allocator refuses.
push_own-push_revat :
    (limit room n x : ℕ) (v : SmallVector) (s : List ℕ)
    → length s < 0x8000_0000_0000_0000
    → Keeps v room s
    → get_elem? s n ≡ some x
    → n < length s
    → ((push_own room n s ≡ err undefined)
        × ((push_revat limit n v ≡ err undefined) ⊎ (push_revat limit n v ≡ err bad_alloc)))
      ⊎ ((push_own room n s ≡ ok (x ∷ s))
          × Grants (λ w. Holds w (from_bottom (x ∷ s))) (push_revat limit n v))
push_own-push_revat limit room n x v s few k e lt =
    let long = length-from_bottom s in
    let at_n : get_elem? (from_bottom s) (length (from_bottom s) - 1 - n) ≡ some x =
      ap (λ (l : ℕ). get_elem? (from_bottom s) (l - 1 - n)) long
      ∙ get_elem?-from_bottom s n x lt e in
    let (freed, kept) =
      push_revat_cases limit n x v (from_bottom s) (omega (arith, long)) k.holds
        (omega (arith, long)) at_n in
    elim (Bool-cases (leb room (length s))) [
      | inr short ↦ inr (rw (short, e) refl, kept (inr (ground (arith, short, k.places, long))))
      | inl tight ↦ elim (Bool-cases (room == 8)) [
        | inl buffer ↦ inr (rw (tight, buffer, e) refl, kept (inl (k.inside ∙ ap not buffer)))
        | inr moved ↦ inl (
          rw (tight, moved) refl,
          freed (k.inside ∙ ap not moved) (
              omega
                (arith, k.places, long, k.holds.fits, k.holds.size, leb→le room (length s) tight)),
        )
      ]
    ]
