-- ===== src/Base/Errors.antt =====
-- Raised exceptions as values: what a Python function raises instead of returning.
use mathlib.Core.Path.{◌≡◌, refl}
use mathlib.Core.Bool.{Bool, true, false}
use mathlib.Core.Option.{Option, none, some}
use mathlib.Core.Logic.{◌≢◌, ◌⊎◌, inl, inr}

pub data Error : Type 0 where
  state_integrity invalid_transition validation_error key_error type_error : Error
  cache_integrity value_error runtime_error os_error database_error index_error overflow_error :
      Error

-- What a call comes to: the value that it returns or the exception that it raises.
pub data Result {ℓ} (A : Type ℓ) : Type ℓ where
  err : (raised : Error) → Result A
  ok : (returned : A) → Result A

pub ok-injective {ℓ} : {A : Type ℓ} {a b : A} → ok a ≡ ok b → a ≡ b
ok-injective h = cc

-- A computation that cannot raise returns.
pub returns_of_ne_err {ℓ} :
    {A : Type ℓ} (m : Result A) → ((e : Error) → m ≢ err e) → (a : A) × (m ≡ ok a)
returns_of_ne_err (err e) never = absurd (never e refl)
returns_of_ne_err (ok a) never = (a, refl)

-- A check that raises ValueError.
abbrev pub require : Bool → Result (Unit {0})
require true = ok tt
require false = err value_error

-- `d[k]`: a missing key raises.
abbrev pub found {ℓ} : {A : Type ℓ} → Option A → Result A
found none = err key_error
found (some a) = ok a

infixl 5 ◌>>=◌ ◌>>◌
-- The next statement runs unless this one raised.
abbrev pub ◌>>=◌ {ℓ κ} : {A : Type ℓ} {B : Type κ} → Result A → (A → Result B) → Result B
err raised >>= next = err raised
ok returned >>= next = next returned

-- A statement that is run for what it may raise.
abbrev pub ◌>>◌ {ℓ κ} : {A : Type ℓ} {B : Type κ} → Result A → Result B → Result B
err raised >> next = err raised
ok returned >> next = next

-- A block that returned has run its first statement.
pub >>=-eq-ok {ℓ κ} :
    {A : Type ℓ} {B : Type κ} (first : Result A) (next : A → Result B) {value : B}
    → (first >>= next) ≡ ok value
    → (a : A) × (first ≡ ok a) × (next a ≡ ok value)
>>=-eq-ok (err raised) next h = cc
>>=-eq-ok (ok returned) next h = (returned, refl, h)

pub Result-cases {ℓ} :
    {A : Type ℓ} (m : Result A) → ((a : A) × (m ≡ ok a)) ⊎ ((e : Error) × (m ≡ err e))
Result-cases (err e) = inr (e, refl)
Result-cases (ok a) = inl (a, refl)

pub ok-ne-err {ℓ} : {A : Type ℓ} {a : A} {e : Error} → ok a ≢ err e
ok-ne-err h = cc

pub >>-eq-ok {ℓ κ} :
    {A : Type ℓ} {B : Type κ} (first : Result A) (next : Result B) {value : B}
    → (first >> next) ≡ ok value
    → (a : A) × (first ≡ ok a) × (next ≡ ok value)
>>-eq-ok (err raised) next h = cc
>>-eq-ok (ok returned) next h = (returned, refl, h)
