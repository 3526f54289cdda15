-- ===== src/Dwarf/DieStrMap/Siblings.antt =====
-- dwarf/die_str_map.cc: which of the siblings a new index finds.
use libelfin.Prelude.{
  ℕ, zero, suc, ◌<◌, ◌≡◌, refl, ◌∙◌, inl, inr, true, false, Option, none, some, List, [], ◌∷◌,
  length, arith, if◌then◌else◌, Bool-cases,
}
use libelfin.Result.{Result, ok, err, ◌>>=◌, bind_alike}
use libelfin.Dwarf.File.{Dwarf}
use libelfin.Dwarf.Die.{Die, increment, is_end}
use libelfin.Dwarf.DieStrMap.{
  DieStrMap, string_eq, find_die, put_die, text_of, index_die, read_on, find_text,
}

-- The entry that `++` leads to, again and again, up to the end of the list: `ys` stand behind `x`,
-- the last of them with no abbreviation.
pub data Behind (fuel limit : ℕ) (d : Dwarf) : Die → List Die → Type 0 where
  ended : (x : Die) → is_end x ≡ true → Behind fuel limit d x []
  followed :
      (x y : Die) (ys : List Die)
      → is_end x ≡ false
      → increment fuel limit d x ≡ ok y
      → Behind fuel limit d y ys
      → Behind fuel limit d x (y ∷ ys)

abbrev pub first_or : List ℕ → Die → Option (List ℕ) → Result (Option Die) → Result (Option Die)
first_or val x none later = later
first_or val x (some s) later = if string_eq val s then ok (some x) else later

-- The first entry of a list with the text.
abbrev pub first_with : Dwarf → ℕ → List ℕ → List ℕ → List Die → Result (Option Die)
first_with d attr accept val [] = ok none
first_with d attr accept val (x ∷ xs) =
    text_of d attr accept x >>= λ t. first_or val x t (first_with d attr accept val xs)

abbrev pub answer : Result (Option Die × DieStrMap) → Result (Option Die)
answer r = r >>= λ a. ok a.0

index_die-answer :
    (more : DieStrMap → Result (Option Die × DieStrMap)) (val : List ℕ) (x : Die)
    (t : Option (List ℕ)) (m : DieStrMap) (later : Result (Option Die))
    → ((xs : List (List ℕ × Die)) → answer (more (record m { str_map = xs })) ≡ later)
    → answer (index_die more val x t m) ≡ first_or val x t later
index_die-answer more val x none m later h = h m.str_map
index_die-answer more val x (some s) m later h = elim (Bool-cases (string_eq val s)) [
  | inl same ↦ rw same refl
  | inr other ↦ rw other (h (put_die s x m.str_map))
]

answer-bind :
    {A : Type 0} (r : Result A) (k : A → Result (Option Die × DieStrMap))
    → answer (r >>= k) ≡ (r >>= λ a. answer (k a))
answer-bind (ok a) k = refl
answer-bind (err e) k = refl

read_on-first_with :
    (fuel limit rounds : ℕ) (d : Dwarf) (val : List ℕ) (x : Die) (ys : List Die) (m : DieStrMap)
    → Behind fuel limit d x ys
    → length ys < rounds
    → m.pos ≡ x
    → answer (read_on rounds fuel limit d val m) ≡ first_with d m.attr m.accept val ys
unfolding read_on
read_on-first_with fuel limit zero d val x ys m b h at_x = absurd (omega arith)
read_on-first_with fuel limit (suc rounds) d val x [] m (ended _ done) h at_x = rw (at_x, done) refl
read_on-first_with fuel limit (suc rounds) d val x (y ∷ ys) m (followed _ _ _ goes step b) h at_x =
    rw (at_x, goes, step)
      (answer-bind (text_of d m.attr m.accept y) _
        ∙ bind_alike _ (text_of d m.attr m.accept y) _ _ refl λ t e.
          index_die-answer (λ m'. read_on rounds fuel limit d val m') val y t (record m { pos = y })
            (first_with d m.attr m.accept val ys)
            λ xs.
              read_on-first_with fuel limit rounds d val y ys (record m { str_map = xs; pos = y }) b
                (omega arith) refl)

-- Asked for a text that it does not hold, an index answers with the first entry that has the text
-- among those that stand behind its position, and with none if there is none: the entry at the
-- position, of a new index the first child, is not looked at. As many rounds as entries are left,
-- with the one that ends the list, are enough.
pub find_text-first_with :
    (fuel limit rounds : ℕ) (d : Dwarf) (val : List ℕ) (m : DieStrMap) (ys : List Die)
    → find_die val m.str_map ≡ none
    → Behind fuel limit d m.pos ys
    → length ys < rounds
    → answer (find_text rounds fuel limit d val m) ≡ first_with d m.attr m.accept val ys
unfolding find_text
find_text-first_with fuel limit rounds d val m ys missing b h =
    rw missing (read_on-first_with fuel limit rounds d val m.pos ys m b h refl)
