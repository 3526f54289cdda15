-- ===== src/Result.antt =====
-- Outcomes of the library's calls: a value, or the exception that is thrown. The exception classes
-- are those of dwarf/dwarf++.hh and <stdexcept>; the message of an exception is reduced to its
-- reason.
use mathlib.Core.Path.{subst}
use libelfin.Prelude.{ℕ, Bool, true, false, ◌≡◌, ◌≢◌, refl, ap, ◌∙◌, ◌⊎◌, inl, inr, if◌then◌else◌}

pub data Reason : Type 0 where
  reserved_initial_length unterminated_string unknown_format : Reason
  unknown_form unknown_attribute_form sec_offset_not_expected : ℕ → Reason
  unknown_abbrev_code unknown_type_signature bad_address_size : ℕ → Reason
  not_implemented bad_operation unknown_user_op : ℕ → Reason
  stack_underflow final_stack_empty deref_size_exceeds xderef_size_exceeds : Reason
  bad_line_version bad_opcode_length unknown_line_opcode vendor_line_opcode : ℕ → Reason
  zero_maximum_operations zero_line_range unexpected_line_end extended_exceeds : Reason
  bad_directory_index bad_file_index missing_file_index : ℕ → Reason
  unknown_unit_version unknown_type_unit_version unknown_name_unit_version no_attribute
        depth_exceeded unexpected_type :
      ℕ → Reason
  missing_info missing_abbrev missing_section : Reason
  bad_elf_magic bad_elf_version bad_elf_class bad_elf_data : Reason
  bad_shstrndx bad_string_offset wrong_section_type wrong_value_form : Reason

-- `undefined` stands for a step that C++ leaves undefined, such as a read outside the loaded
-- image or a shift by the width of the word. `out_of_fuel` is no outcome of the program: the
-- rounds granted to a loop did not suffice.
pub data Error : Type 0 where
  underflow_error : Error
  format_error logic_error runtime_error expr_error range_error : Reason → Error
  out_of_range type_mismatch : Reason → Error
  bad_alloc undefined out_of_fuel : Error

pub data Result {ℓ} (A : Type ℓ) : Type ℓ where
  ok : A → Result A
  err : Error → Result A

module _ {ℓ κ} {A : Type ℓ} {B : Type κ} where
  infixl 5 ◌>>=◌
  -- An exception ends the chain.
  abbrev pub ◌>>=◌ : Result A → (A → Result B) → Result B
  err why >>= k = err why
  ok a >>= k = k a

  -- What a chain that succeeds went through.
  pub >>=-eq-ok :
      (r : Result A) (k : A → Result B) {b : B}
      → (r >>= k) ≡ ok b
      → (a : A) × (r ≡ ok a) × (k a ≡ ok b)
  >>=-eq-ok (err why) k done = absurd (cc)
  >>=-eq-ok (ok a) k done = (a, refl, done)

infixl 5 ◌>>◌
abbrev pub ◌>>◌ {ℓ} : {A : Type ℓ} → Result (Unit {0}) → Result A → Result A
checked >> next = checked >>= λ _. next

-- `if (!test) throw why;`
abbrev pub guard : Bool → Error → Result (Unit {0})
guard false why = err why
guard true why = ok tt

pub Result-cases {ℓ} :
    {A : Type ℓ} (r : Result A) → ((a : A) × (r ≡ ok a)) ⊎ ((e : Error) × (r ≡ err e))
Result-cases (ok a) = inl (a, refl)
Result-cases (err e) = inr (e, refl)

-- The outcome is one of the program: the rounds granted sufficed.
abbrev pub Ends {ℓ} : {A : Type ℓ} → Result A → Type ℓ
Ends r = r ≢ err out_of_fuel

-- A chain ends where both its parts do.
pub bind-Ends {ℓ κ} :
    {A : Type ℓ} {B : Type κ} (m : Result A) (f : A → Result B)
    → Ends m
    → ((a : A) → m ≡ ok a → Ends (f a))
    → Ends (m >>= f)
bind-Ends (ok a) f hm hf = hf a refl
bind-Ends (err e) f hm hf = λ p. hm (cc p)

pub ok-Ends {ℓ} : {A : Type ℓ} (a : A) → Ends (ok a)
ok-Ends a = λ p. cc

pub ok_inj {ℓ} : {A : Type ℓ} {a b : A} → ok a ≡ ok b → a ≡ b
ok_inj e = cc

-- Every value that is returned has the property.
abbrev pub Gives {ℓ κ} : {A : Type ℓ} → (A → Type κ) → Result A → Type (ℓ ⊔ κ)
Gives {A = A} P r = (a : A) → r ≡ ok a → P a

pub ok-Gives {ℓ κ} : {A : Type ℓ} (P : A → Type κ) (a : A) → P a → Gives P (ok a)
ok-Gives P a h = λ b e. subst P (ok_inj e) h

pub bind-Gives {ℓ κ μ} :
    {A : Type ℓ} {B : Type κ} (P : B → Type μ) (r : Result A) (k : A → Result B)
    → ((a : A) → r ≡ ok a → Gives P (k a))
    → Gives P (r >>= k)
bind-Gives P (ok a) k h = h a refl
bind-Gives P (err why) k h = λ b e. absurd (cc)

pub if-Gives {ℓ κ} :
    {A : Type ℓ} (P : A → Type κ) (b : Bool) (x y : Result A)
    → Gives P x
    → Gives P y
    → Gives P (if b then x else y)
if-Gives P true x y hx hy = hx
if-Gives P false x y hx hy = hy

-- The outcome is an exception, or a value that has the property.
abbrev pub Returns {ℓ} : {A : Type ℓ} → (A → Type 0) → Result A → Type 0
Returns P (ok a) = P a
Returns P (err why) = why ≢ out_of_fuel

pub Gives-Returns {ℓ} :
    {A : Type ℓ} (P : A → Type 0) (r : Result A) → Ends r → Gives P r → Returns P r
Gives-Returns P (ok a) ends gives = gives a refl
Gives-Returns P (err why) ends gives = λ e. ends (ap err e)

-- The outcome is not this exception.
abbrev pub Avoids {ℓ} : {A : Type ℓ} → Error → Result A → Type ℓ
Avoids why r = r ≢ err why

pub bind-Avoids {ℓ κ} :
    {A : Type ℓ} {B : Type κ} (why : Error) (m : Result A) (f : A → Result B)
    → Avoids why m
    → ((a : A) → m ≡ ok a → Avoids why (f a))
    → Avoids why (m >>= f)
bind-Avoids why (ok a) f hm hf = hf a refl
bind-Avoids why (err e) f hm hf = λ p. hm (cc p)

pub if-Avoids {ℓ} :
    {A : Type ℓ} (why : Error) (b : Bool) (x y : Result A)
    → Avoids why x
    → Avoids why y
    → Avoids why (if b then x else y)
if-Avoids why true x y hx hy = hx
if-Avoids why false x y hx hy = hy

pub ok-Avoids {ℓ} : {A : Type ℓ} (why : Error) (a : A) → Avoids why (ok a)
ok-Avoids why a = λ p. cc

-- Chains that begin alike, and go on alike from every value.
pub bind_alike {ℓ κ} :
    {A : Type ℓ} {B : Type κ} (r r' : Result A) (k k' : A → Result B)
    → r ≡ r'
    → ((a : A) → r' ≡ ok a → k a ≡ k' a)
    → (r >>= k) ≡ (r' >>= k')
bind_alike r (ok a) k k' e h = ap (λ x. x >>= k) e ∙ h a refl
bind_alike r (err why) k k' e h = ap (λ x. x >>= k) e
