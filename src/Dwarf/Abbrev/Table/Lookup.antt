-- ===== src/Dwarf/Abbrev/Table/Lookup.antt =====
-- dwarf/dwarf.cc: both containers of the abbreviations answer as the list of the entries read.
use mathlib.Core.Path.{subst}
use native.Mathlib.Decide.{dec_lt}
use libelfin.Prelude.{
  ℕ, zero, suc, ◌+◌, ◌%◌, ◌≤◌, ◌<◌, ◌≡◌, ◌≢◌, refl, ap, ◌∙◌, ◌⊎◌, inl, inr, Bool, true, false,
  Option, none, some, List, [], ◌∷◌, arith, ltb, leb, ◌==◌, if◌then◌else◌, length, get_elem?,
  replicate, set, Bool-cases, length-replicate, get_elem?-replicate, length-set, get_elem?-set_self,
  get_elem?-set_ne, All, Option-cases, ltb→lt, ==_iff, get_elem?_ge,
}
use libelfin.Result.{
  Result, ok, err, out_of_fuel, bad_alloc, guard, ◌>>=◌, >>=-eq-ok, Gives, ok-Gives, bind-Gives,
}
use libelfin.Word.{u64_mod}
use libelfin.Dwarf.Section.{Section}
use libelfin.Dwarf.Cursor.{Cursor, cursor_at}
use libelfin.Dwarf.Abbrev.{AbbrevEntry, read_abbrev}
use libelfin.Dwarf.Abbrev.Read.{read_abbrev-code}
use libelfin.Dwarf.Abbrev.Table.{
  AbbrevTable, blank_entry, put_entry, find_entry, read_entries, is_dense, move_entries,
  store_entries, force_abbrevs, known_entry, written_entry, lookup_in, get_abbrev,
}

-- The entries of a table in the order of the section, up to its end.
unfoldable pub entries_from : ℕ → ℕ → AbbrevEntry → Cursor → Result (List AbbrevEntry)
entries_from zero fuel e c = err out_of_fuel
entries_from (suc rounds) fuel e c = do
  (more, e', c') ← read_abbrev fuel e c
  let further = do es ← entries_from rounds fuel e' c'; ok (e' ∷ es)
  if more then further else ok []

abbrev pub or_else : Option AbbrevEntry → Option AbbrevEntry → Option AbbrevEntry
or_else none y = y
or_else (some x) y = some x

-- The last entry with the code.
abbrev pub last_with : ℕ → List AbbrevEntry → Option AbbrevEntry
last_with code [] = none
last_with code (e ∷ es) = or_else (last_with code es) (if e.code == code then some e else none)

find-put_entry :
    (code : ℕ) (e : AbbrevEntry) (m : List AbbrevEntry)
    → find_entry code (put_entry e m) ≡ (if e.code == code then some e else find_entry code m)
unfolding find_entry put_entry
find-put_entry code e [] = refl
find-put_entry code e (x ∷ m) = ground (arith, find-put_entry code e m)

-- No code twice.
abbrev IsDistinct : List AbbrevEntry → Type 0
IsDistinct [] = Unit {0}
IsDistinct (e ∷ m) = (find_entry e.code m ≡ none) × IsDistinct m

put_entry-IsDistinct :
    (e : AbbrevEntry) (m : List AbbrevEntry) → IsDistinct m → IsDistinct (put_entry e m)
unfolding put_entry find_entry
put_entry-IsDistinct e [] d = (refl, tt)
put_entry-IsDistinct e (x ∷ m) d = elim (Bool-cases (x.code == e.code)) [
  | inl same ↦ rw same (ground (arith, same, d), d.1)
  | inr other ↦
      rw other
        (rw (find-put_entry x.code e m) (ground (arith, other, d)), put_entry-IsDistinct e m d.1)
]

abbrev IsBounded : ℕ → List AbbrevEntry → Type 0
IsBounded highest m = All (λ e. (e.code ≤ highest) × (e.code ≢ 0)) m

IsBounded-wider : (h k : ℕ) (m : List AbbrevEntry) → h ≤ k → IsBounded h m → IsBounded k m
IsBounded-wider h k [] le b = tt
IsBounded-wider h k (e ∷ m) le b = ((omega (arith, b.0), b.0.1), IsBounded-wider h k m le b.1)

put_entry-IsBounded :
    (h : ℕ) (e : AbbrevEntry) (m : List AbbrevEntry)
    → e.code ≤ h
    → e.code ≢ 0
    → IsBounded h m
    → IsBounded h (put_entry e m)
unfolding put_entry
put_entry-IsBounded h e [] le nz b = ((le, nz), tt)
put_entry-IsBounded h e (x ∷ m) le nz b = elim (Bool-cases (x.code == e.code)) [
  | inl same ↦ rw same ((le, nz), b.1)
  | inr other ↦ rw other (b.0, put_entry-IsBounded h e m le nz b.1)
]

find_entry-All :
    (P : AbbrevEntry → Type 0) (code : ℕ) (m : List AbbrevEntry) (x : AbbrevEntry)
    → All P m
    → find_entry code m ≡ some x
    → (x.code ≡ code) × P x
unfolding find_entry
find_entry-All P code [] x all e = absurd (cc)
find_entry-All P code (y ∷ m) x all e = elim (Bool-cases (y.code == code)) [
  | inl same ↦
      let e' : y ≡ x = cc (rw same at e) in
      subst (λ z. (z.code ≡ code) × P z) e' ((==_iff y.code code).0 same, all.0)
  | inr other ↦ find_entry-All P code m x all.1 (rw other at e)
]

-- What moving the map into the vector does.
record Moved (m vec w : List AbbrevEntry) : Type 0 where
  pub size : length w ≡ length vec
  pub inside : All (λ e. e.code < length vec) m
  pub slots :
      (code : ℕ)
      → code < length vec
      → get_elem? w code ≡ or_else (find_entry code m) (get_elem? vec code)

move_entries-Moved :
    (m vec : List AbbrevEntry) → IsDistinct m → Gives (Moved m vec) (move_entries m vec)
unfolding move_entries find_entry
move_entries-Moved [] vec d =
    ok-Gives (Moved [] vec) vec (record { size = refl; inside = tt; slots = λ code h. refl })
move_entries-Moved (e ∷ m) vec d = elim (Bool-cases (ltb e.code (length vec))) [
  | inr far ↦ rw far (λ w q. absurd (cc))
  | inl near ↦ rw near λ w q.
      let h = move_entries-Moved m (set vec e.code e) d.1 w q in
      let len = length-set vec e.code e in
      record {
        size = h.size ∙ len;
        inside = (ltb→lt _ _ near, subst (λ n. All (λ x. x.code < n) m) len h.inside);
        slots = λ code lt. slot (ltb→lt _ _ near) w h code lt;
      }
]
  where
    slot :
        e.code < length vec
        → (w : List AbbrevEntry) → Moved m (set vec e.code e) w
        → (code : ℕ) → code < length vec
        → get_elem? w code
          ≡ or_else (if e.code == code then some e else find_entry code m) (get_elem? vec code)
    slot near w h code lt =
        let at = h.slots code (rw (length-set vec e.code e) lt) in
        elim (Bool-cases (e.code == code)) [
          | inl same ↦
              let same' = (==_iff e.code code).0 same in
              let absent = subst (λ k. find_entry k m ≡ none) same' d.0 in
              let here =
                subst (λ k. get_elem? (set vec e.code e) k ≡ some e) same'
                  (get_elem?-set_self vec e.code e near) in
              rw same (at ∙ rw (absent, here))
          | inr other ↦
              let ne : e.code ≢ code = ground (arith, other) in
              rw other (at ∙ rw (get_elem?-set_ne vec e.code code e ne))
        ]

vec_answer :
    (code : ℕ) (m : List AbbrevEntry) (highest : ℕ)
    → IsBounded highest m
    → written_entry code (or_else (find_entry code m) (some blank_entry))
      ≡ known_entry code (find_entry code m)
vec_answer code m highest b = elim (Option-cases (find_entry code m)) [
  | inl (x, e) ↦
      let (_, both) = find_entry-All (λ e. (e.code ≤ highest) × (e.code ≢ 0)) code m x b e in
      let nz = both.1 in let test : (x.code == 0) ≡ false = ground (arith, nz) in rw (e, test)
  | inr e ↦ rw e
]

lookup_vec :
    (w : List AbbrevEntry) (code : ℕ)
    → 0 < length w
    → lookup_in w [] code ≡ written_entry code (get_elem? w code)
lookup_vec [] code h = absurd (omega arith)
lookup_vec (e ∷ w) code h = refl

Moved-get :
    (m w : List AbbrevEntry) (n highest code : ℕ)
    → IsBounded highest m
    → 0 < length m
    → Moved m (replicate n blank_entry) w
    → lookup_in w [] code ≡ known_entry code (find_entry code m)
Moved-get m w n highest code b some_entry h =
    let size : length w ≡ n = h.size ∙ length-replicate n blank_entry in
    let nonempty : 0 < n = first_inside m some_entry h.inside in
    lookup_vec w code (omega arith) ∙ elim (dec_lt code n) [
      | yes inside ↦
          let at = h.slots code (rw (length-replicate n blank_entry) inside) in
          rw (at, get_elem?-replicate n code blank_entry inside) (vec_answer code m highest b)
      | no outside ↦
          rw
            (get_elem?_ge w code (omega arith), far_code outside (Option-cases (find_entry code m)))
    ]
  where
    first_inside :
        (l : List AbbrevEntry)
        → 0 < length l
        → All (λ e. e.code < length (replicate n blank_entry)) l
        → 0 < n
    first_inside [] p all = absurd (omega arith)
    first_inside (e ∷ l) p all = omega (arith, all.0, length-replicate n blank_entry)

    far_code :
        ¬ (code < n)
        → ((x : AbbrevEntry) × (find_entry code m ≡ some x)) ⊎ (find_entry code m ≡ none)
        → find_entry code m ≡ none
    far_code outside (inr e) = e
    far_code outside (inl (x, e)) =
        let (same, near) =
          find_entry-All (λ e. e.code < length (replicate n blank_entry)) code m x h.inside e in
        absurd (outside (omega (arith, length-replicate n blank_entry)))

-- The map that the loop makes of the entries `es`.
record Collected (m : List AbbrevEntry) (es : List AbbrevEntry) (r : List AbbrevEntry × ℕ)
    : Type 0 where
  pub distinct : IsDistinct r.0
  pub bounded : IsBounded r.1 r.0
  pub finds : (code : ℕ) → find_entry code r.0 ≡ or_else (last_with code es) (find_entry code m)

or_else_assoc : (x y z : Option AbbrevEntry) → or_else x (or_else y z) ≡ or_else (or_else x y) z
or_else_assoc none y z = refl
or_else_assoc (some x) y z = refl

or_else_if :
    (b : Bool) (e : AbbrevEntry) (y : Option AbbrevEntry)
    → (if b then some e else y) ≡ or_else (if b then some e else none) y
or_else_if true e y = refl
or_else_if false e y = refl

read_entries-Collected :
    (rounds fuel : ℕ) (e : AbbrevEntry) (c : Cursor) (m : List AbbrevEntry) (h : ℕ)
    → IsDistinct m
    → IsBounded h m
    → Gives
        (λ r. (es : List AbbrevEntry) × (entries_from rounds fuel e c ≡ ok es) × Collected m es r)
        (read_entries rounds fuel e c m h)
unfolding read_entries entries_from
read_entries-Collected zero fuel e c m h d b = λ r q. absurd (cc)
read_entries-Collected (suc rounds) fuel e c m h d b =
    let P = λ (r : List AbbrevEntry × ℕ).
      (es : List AbbrevEntry) × (entries_from (suc rounds) fuel e c ≡ ok es) × Collected m es r in
    bind-Gives P (read_abbrev fuel e c) _ λ a q. elim (Bool-cases a.0) [
      | inr stop ↦ rw stop (
          ok-Gives P (m, h)
            ([], rw (q, stop), record { distinct = d; bounded = b; finds = λ code. refl }))
      | inl go ↦ rw go λ r q'.
          let nz = read_abbrev-code fuel e c a q go in
          let h' = if ltb h a.1.code then a.1.code else h in
          let wide : h ≤ h' = ground arith in
          let top : a.1.code ≤ h' = ground arith in
          let (es, all, k) =
            read_entries-Collected rounds fuel a.1 a.2 (put_entry a.1 m) h'
              (put_entry-IsDistinct a.1 m d)
              (put_entry-IsBounded h' a.1 m top nz (IsBounded-wider h h' m wide b)) r q' in
          (
            a.1 ∷ es,
            rw (q, go, all),
            record {
              distinct = k.distinct;
              bounded = k.bounded;
              finds = λ code.
                  k.finds code
                  ∙ ap (or_else (last_with code es)) (
                      find-put_entry code a.1 m
                      ∙ or_else_if (a.1.code == code) a.1 (find_entry code m))
                  ∙ or_else_assoc (last_with code es) (if a.1.code == code then some a.1 else none)
                      (find_entry code m);
            },
          )
    ]

or_else-none : (x : Option AbbrevEntry) → or_else x none ≡ x
or_else-none none = refl
or_else-none (some x) = refl

store_entries-get :
    (limit highest : ℕ) (m : List AbbrevEntry)
    → IsDistinct m
    → IsBounded highest m
    → Gives
        (λ t. (code : ℕ) → get_abbrev t code ≡ known_entry code (find_entry code m))
        (store_entries limit m highest)
unfolding store_entries get_abbrev
store_entries-get limit highest m d b =
    let P =
      λ (t : AbbrevTable). (code : ℕ) → get_abbrev t code ≡ known_entry code (find_entry code m) in
    let size = (highest + 1) % u64_mod in
    elim (Bool-cases (is_dense m highest)) [
      | inr sparse ↦ rw sparse (ok-Gives P _ λ code. refl)
      | inl dense ↦ rw dense (
          bind-Gives P (guard (leb size limit) bad_alloc) _ λ u g.
            bind-Gives P (move_entries m (replicate size blank_entry)) _ λ w q. ok-Gives P _ λ code.
              Moved-get m w size highest code b (nonempty dense)
                (move_entries-Moved m (replicate size blank_entry) d w q))
    ]
  where
    nonempty : is_dense m highest ≡ true → 0 < length m
    nonempty h = let lt = ltb→lt _ _ h in omega arith

-- Whether the abbreviations of a unit are kept in a map or in a vector, `get_abbrev` answers for
-- every code with the last entry of that code in the section, or with the exception for an unknown
-- code if there is none.
pub force_abbrevs-get :
    (limit rounds fuel offset : ℕ) (s : Section) (t : AbbrevTable)
    → force_abbrevs limit rounds fuel s offset ≡ ok t
    → (es : List AbbrevEntry) × (entries_from rounds fuel blank_entry (cursor_at s offset) ≡ ok es)
      × ((code : ℕ) → get_abbrev t code ≡ known_entry code (last_with code es))
unfolding force_abbrevs find_entry
force_abbrevs-get limit rounds fuel offset s t e =
    let ((m, highest), q, q') =
      >>=-eq-ok (read_entries rounds fuel blank_entry (cursor_at s offset) [] 0) _ e in
    let (es, all, k) =
      read_entries-Collected rounds fuel blank_entry (cursor_at s offset) [] 0 tt tt (m, highest)
        q in
    (
      es,
      all,
      λ code.
          store_entries-get limit highest m k.distinct k.bounded t q' code
          ∙ ap (known_entry code) (k.finds code ∙ or_else-none (last_with code es)),
    )
