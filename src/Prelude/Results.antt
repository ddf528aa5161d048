-- ===== src/Prelude/Results.antt =====
-- Python's exceptions as values. The text that an exception carries is not modelled.
use mathlib.Core.Path.{◌≡◌, refl, ap}
use mathlib.Core.Bool.{Bool, true, false}

pub data Error : Type 0 where
  protocol_error : Error
  struct_error : Error
  unicode_error : Error
  type_error : Error
  attribute_error : Error
  key_error : Error
  value_error : Error
  index_error : Error
  zero_division : Error
  os_error : Error
  cancelled_error : Error
  request_error : Error
  message_length_error : Error
  runtime_error : Error
  missing_info_error : Error
  no_option_error : Error
  no_section_error : Error
  interpolation_error : Error
  assertion_error : Error
  usage_error : Error
  database_error : Error

pub data Result {ℓ} (A : Type ℓ) : Type ℓ where
  ok : A → Result A
  err : Error → Result A

-- `if not b: raise e`
abbrev pub guard : Bool → Error → Result (Unit {0})
guard false e = err e
guard true e = ok tt

infixl 5 ◌>>=◌ ◌>>◌
abbrev pub ◌>>=◌ {ℓ μ} : {A : Type ℓ} {C : Type μ} → Result A → (A → Result C) → Result C
err e >>= next = err e
ok x >>= next = next x

abbrev pub ◌>>◌ {ℓ} : {C : Type ℓ} → Result (Unit {0}) → Result C → Result C
first >> second = first >>= λ _. second

-- What a bind that succeeds has passed through.
pub >>=-eq-ok {ℓ μ} :
    {A : Type ℓ} {C : Type μ} (m : Result A) (next : A → Result C) {c : C}
    → (m >>= next) ≡ ok c
    → (x : A) × (m ≡ ok x) × (next x ≡ ok c)
>>=-eq-ok (err e) next h = cc
>>=-eq-ok (ok x) next h = (x, refl, h)

-- Every exception that `r` may be is one of `P`.
pub record Raises {ℓ κ} {A : Type ℓ} (P : Error → Type κ) (r : Result A) : Type (ℓ ⊔ κ) where
  pub at : (e : Error) → r ≡ err e → P e

module _ {ℓ κ μ} {A : Type ℓ} {B : Type κ} {P : Error → Type μ} where
  pub Raises-bind :
      (m : Result A) (f : A → Result B)
      → Raises P m
      → ((a : A) → m ≡ ok a → Raises P (f a))
      → Raises P (m >>= f)
  Raises-bind (ok a) f hm hf = hf a refl
  Raises-bind (err e) f hm hf = record { at = λ e' h. hm.at e' (error_eq h) }
    where
      error_eq :
          {e' : Error} → ◌≡◌ {A = Result B} (err e) (err e') → ◌≡◌ {A = Result A} (err e) (err e')
      error_eq h = cc

pub ok-injective {ℓ} : {A : Type ℓ} {a b : A} → ◌≡◌ {A = Result A} (ok a) (ok b) → a ≡ b
ok-injective {a = a} h = ap (λ r. elim r [ ok x ↦ x | err _ ↦ a ]) h

-- Goes on with the result of a call, unless it raised.
infixl 5 ◌and_then◌
abbrev pub ◌and_then◌ {ℓ} :
    {W : Type ℓ} {A B : Type 0} → Result A × W → (A → W → Result B × W) → Result B × W
(ok a, w) and_then next = next a w
(err e, w) and_then next = (err e, w)

-- What a call that returns has passed through, also where its first part changes no state.
module _ {ℓ} {W : Type ℓ} {A B : Type 0} (next : A → W → Result B × W) {b : B} {v : W} where
  pub no_error : {e : Error} {w : W} → ¬ (◌≡◌ {A = Result B × W} (err e, w) (ok b, v))
  no_error h = impossible (ap (λ p. p.0) h)
    where
      impossible : {e : Error} → ◌≡◌ {A = Result B} (err e) (ok b) → ⊥
      impossible q = cc

  pub and_then-eq-ok :
      (m : Result A × W)
      → (m and_then next) ≡ (ok b, v)
      → (a : A) × (w : W) × (m ≡ (ok a, w)) × (next a w ≡ (ok b, v))
  and_then-eq-ok (ok a, w) h = (a, w, refl, h)
  and_then-eq-ok (err e, w) h = absurd (no_error h)

  pub and_then-eq-ok_pure :
      (r : Result A) (w : W)
      → ((r, w) and_then next) ≡ (ok b, v)
      → (a : A) × (r ≡ ok a) × (next a w ≡ (ok b, v))
  and_then-eq-ok_pure (ok a) w h = (a, refl, h)
  and_then-eq-ok_pure (err e) w h = absurd (no_error h)
