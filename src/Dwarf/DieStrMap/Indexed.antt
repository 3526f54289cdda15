-- ===== src/Dwarf/DieStrMap/Indexed.antt =====
-- dwarf/die_str_map.cc: what the index holds, and what it answers.
use mathlib.Core.Path.{subst}
use libelfin.Prelude.{
  ℕ, zero, suc, ◌≡◌, refl, sym, ap, ◌∙◌, inl, inr, true, false, Option, none, some, List, [], ◌∷◌,
  ◌==◌, ==_iff, All, Bool-cases, Option-cases,
}
use libelfin.Result.{Result, ok, >>=-eq-ok, Gives, ok-Gives, bind-Gives, if-Gives}
use libelfin.Dwarf.Attribute.{any_of}
use libelfin.Dwarf.File.{Dwarf}
use libelfin.Dwarf.Value.{Value, as_string}
use libelfin.Dwarf.Die.{Die, has, lookup, increment, is_end}
use libelfin.Dwarf.DieStrMap.{
  DieStrMap, string_eq, find_die, put_die, is_string, text_of, index_die, read_on, find_text,
}

string_eq_eq : (xs ys : List ℕ) → string_eq xs ys ≡ true → xs ≡ ys
string_eq_eq [] [] h = refl
string_eq_eq [] (y ∷ ys) h = absurd (cc)
string_eq_eq (x ∷ xs) [] h = absurd (cc)
string_eq_eq (x ∷ xs) (y ∷ ys) h = elim (Bool-cases (x == y)) [
  | inl e ↦
      let tails : xs ≡ ys = string_eq_eq xs ys (rw e at h) in
      let heads : x ≡ y = (==_iff x y).0 e in cc
  | inr e ↦ absurd (let gone : false ≡ true = rw e at h in cc)
]

string_eq_refl : (xs : List ℕ) → string_eq xs xs ≡ true
string_eq_refl [] = refl
string_eq_refl (x ∷ xs) =
    let heads : (x == x) ≡ true = (==_iff x x).1 refl in rw heads (string_eq_refl xs)

-- An accepted entry with this text in the attribute.
pub record Matches (d : Dwarf) (attr : ℕ) (accept s : List ℕ) (x : Die) : Type 0 where
  pub accepted : any_of x.tag accept ≡ true
  pub dval : Value
  pub found : lookup x attr ≡ ok dval
  pub string : is_string dval.type ≡ true
  pub text : as_string d dval ≡ ok s

-- Every entry of the index matches its text.
abbrev pub IsIndexed : Dwarf → DieStrMap → Type 0
IsIndexed d m = All (λ (e : List ℕ × Die). Matches d m.attr m.accept e.0 e.1) m.str_map

-- What the loop returns.
abbrev pub Answer : Dwarf → List ℕ → Option Die × DieStrMap → Type 0
Answer d val (none, m) = IsIndexed d m
Answer d val (some x, m) =
    IsIndexed d m × Matches d m.attr m.accept val x × (find_die val m.str_map ≡ some x)

module _ (d : Dwarf) (attr : ℕ) (accept : List ℕ) where
  abbrev Held : List (List ℕ × Die) → Type 0
  Held xs = All (λ (e : List ℕ × Die). Matches d attr accept e.0 e.1) xs

  find_die-Matches :
      (val : List ℕ) (xs : List (List ℕ × Die)) (x : Die)
      → Held xs
      → find_die val xs ≡ some x
      → Matches d attr accept val x
  find_die-Matches val [] x h e = absurd (cc)
  find_die-Matches val ((s, y) ∷ later) x h e = elim (Bool-cases (string_eq val s)) [
    | inl same ↦
        let key : s ≡ val = sym (string_eq_eq val s same) in
        let is : some y ≡ some x = rw same at e in
        let is' : y ≡ x = cc in
        subst (λ z. Matches d attr accept val z) is'
          (subst (λ t. Matches d attr accept t y) key h.0)
    | inr other ↦ find_die-Matches val later x h.1 (rw other at e)
  ]

  put_die-Held :
      (s : List ℕ) (x : Die) (xs : List (List ℕ × Die))
      → Matches d attr accept s x
      → Held xs
      → Held (put_die s x xs)
  put_die-Held s x [] k h = (k, tt)
  put_die-Held s x ((t, y) ∷ later) k h = elim (Bool-cases (string_eq s t)) [
    | inl same ↦ rw same (subst (λ w. Matches d attr accept w x) (string_eq_eq s t same) k, h.1)
    | inr other ↦ rw other (h.0, put_die-Held s x later k h.1)
  ]

  text_of-Matches :
      (x : Die) (s : List ℕ) → text_of d attr accept x ≡ ok (some s) → Matches d attr accept s x
  text_of-Matches x s e = elim (Bool-cases (any_of x.tag accept)) [
    | inr refused ↦ absurd (let gone : ok none ≡ ok (some s) = rw refused at e in cc)
    | inl accepted ↦ elim (Bool-cases (has x attr)) [
      | inr lacks ↦ absurd (let gone : ok none ≡ ok (some s) = rw (accepted, lacks) at e in cc)
      | inl holds ↦
          let (dval, found, e1) = >>=-eq-ok (lookup x attr) _ (rw (accepted, holds) at e) in
          elim (Bool-cases (is_string dval.type)) [
            | inr other ↦ absurd (let gone : ok none ≡ ok (some s) = rw other at e1 in cc)
            | inl string ↦
                let (t, text, e2) = >>=-eq-ok (as_string d dval) _ (rw string at e1) in
                let is : t ≡ s = cc in
                record {
                  accepted = accepted;
                  dval = dval;
                  found = found;
                  string = string;
                  text = text ∙ ap ok is;
                }
          ]
    ]
  ]

find_die-put_die :
    (s val : List ℕ) (x : Die) (xs : List (List ℕ × Die))
    → s ≡ val
    → find_die val (put_die s x xs) ≡ some x
find_die-put_die s val x [] e =
    let same : string_eq val s ≡ true =
      subst (λ t. string_eq val t ≡ true) (sym e) (string_eq_refl val) in
    rw same refl
find_die-put_die s val x ((t, y) ∷ later) e = elim (Bool-cases (string_eq s t)) [
  | inl same ↦
      let here : string_eq val t ≡ true = subst (λ w. string_eq w t ≡ true) e same in
      rw (same, here) refl
  | inr other ↦
      let past : string_eq val t ≡ false = subst (λ w. string_eq w t ≡ false) e other in
      rw (other, past) (find_die-put_die s val x later e)
]

index_die-Answer :
    (d : Dwarf) (more : DieStrMap → Result (Option Die × DieStrMap)) (val : List ℕ) (x : Die)
    (t : Option (List ℕ)) (m : DieStrMap)
    → ((m' : DieStrMap) → IsIndexed d m' → Gives (Answer d val) (more m'))
    → IsIndexed d m
    → text_of d m.attr m.accept x ≡ ok t
    → Gives (Answer d val) (index_die more val x t m)
index_die-Answer d more val x none m step h read = step m h
index_die-Answer d more val x (some s) m step h read =
    let matches = text_of-Matches d m.attr m.accept x s read in
    let held = put_die-Held d m.attr m.accept s x m.str_map matches h in
    elim (Bool-cases (string_eq val s)) [
      | inl same ↦
          let key : s ≡ val = sym (string_eq_eq val s same) in
          rw same (
            ok-Gives (Answer d val) _ (
              held,
              subst (λ t. Matches d m.attr m.accept t x) key matches,
              find_die-put_die s val x m.str_map key,
            ))
      | inr other ↦ rw other (step (record m { str_map = put_die s x m.str_map }) held)
    ]

read_on-Answer :
    (rounds fuel limit : ℕ) (d : Dwarf) (val : List ℕ) (m : DieStrMap)
    → IsIndexed d m
    → Gives (Answer d val) (read_on rounds fuel limit d val m)
unfolding read_on
read_on-Answer zero fuel limit d val m h = λ a e. absurd (cc)
read_on-Answer (suc rounds) fuel limit d val m h =
    if-Gives (Answer d val) (is_end m.pos) _ _ (ok-Gives (Answer d val) _ h) (
      bind-Gives (Answer d val) (increment fuel limit d m.pos) _ λ x e.
        bind-Gives (Answer d val) (text_of d m.attr m.accept x) _ λ t read.
          index_die-Answer d (λ m'. read_on rounds fuel limit d val m') val x t
            (record m { pos = x }) (λ m' h'. read_on-Answer rounds fuel limit d val m' h') h read)

-- Asked for a text, an index whose entries match their texts keeps that property. If it answers
-- with an entry, that has an accepted tag and the text in its attribute, and to the same question
-- the index then gives the same answer without reading further.
pub find_text-Answer :
    (rounds fuel limit : ℕ) (d : Dwarf) (val : List ℕ) (m : DieStrMap)
    → IsIndexed d m
    → Gives (Answer d val) (find_text rounds fuel limit d val m)
unfolding find_text
find_text-Answer rounds fuel limit d val m h = elim (Option-cases (find_die val m.str_map)) [
  | inl (x, found) ↦ rw found (
      ok-Gives (Answer d val) _
        (h, find_die-Matches d m.attr m.accept val m.str_map x h found, found))
  | inr missing ↦ rw missing (read_on-Answer rounds fuel limit d val m h)
]
