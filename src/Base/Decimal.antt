-- ===== src/Base/Decimal.antt =====
-- `str(n)` of a natural number, in decimal digits.
use Prim.Native.Nat.{ℕ, zero, suc, ◌+◌, ◌*◌, ◌/◌, ◌%◌, ◌-◌, ◌<◌}
use Prim.Native.String.{String, ◌++◌ as ◌+++◌}
use text.Mathlib.TextLemmas.{cons-append, nil-append}
use mathlib.Core.Path.{◌≡◌, refl, sym, ap, ◌∙◌}
use mathlib.Core.Logic.{inl, inr}
use mathlib.Core.List.{List, [], ◌∷◌, ◌++◌}
use native.Mathlib.Omega.{arith}
use schema_guard.Base.Tests.{if◌then◌else◌, ltb, Bool-cases}
use Prim.Native.Char.{code}
use schema_guard.Base.Texts.{codes}

digit : ℕ → String
digit zero = "0"
digit (suc zero) = "1"
digit (suc (suc zero)) = "2"
digit (suc (suc (suc zero))) = "3"
digit (suc (suc (suc (suc zero)))) = "4"
digit (suc (suc (suc (suc (suc zero))))) = "5"
digit (suc (suc (suc (suc (suc (suc zero)))))) = "6"
digit (suc (suc (suc (suc (suc (suc (suc zero))))))) = "7"
digit (suc (suc (suc (suc (suc (suc (suc (suc zero)))))))) = "8"
digit (suc (suc (suc (suc (suc (suc (suc (suc (suc n))))))))) = "9"

-- The digits of a number below 10 ^ (fuel + 1).
digits : ℕ → ℕ → String
digits zero n = digit n
digits (suc fuel) n =
    let rest = digits fuel (n / 10) in if ltb n 10 then digit n else rest +++ digit (n % 10)

unfoldable pub decimal : ℕ → String
unfolding digits digit
decimal n = digits n n

-- The number that a text of digits stands for.
value_from : ℕ → List ℕ → ℕ
value_from acc [] = acc
value_from acc (c ∷ cs) = value_from (acc * 10 + (c - b'0')) cs

value_from-append :
    (acc : ℕ) (cs ds : List ℕ) → value_from acc (cs ++ ds) ≡ value_from (value_from acc cs) ds
unfolding value_from
value_from-append acc [] ds = refl
value_from-append acc (c ∷ cs) ds = value_from-append (acc * 10 + (c - b'0')) cs ds

codes-append : (s t : String) → codes (s +++ t) ≡ codes s ++ codes t
codes-append String.[] t = rw (nil-append t) refl
codes-append (String.◌∷◌ c s) t = rw (cons-append c s t) (ap (◌∷◌ (code c)) (codes-append s t))

value-digit : (acc n : ℕ) → n < 10 → value_from acc (codes (digit n)) ≡ acc * 10 + n
unfolding value_from digit
value-digit acc zero h = omega arith
value-digit acc (suc zero) h = omega arith
value-digit acc (suc (suc zero)) h = omega arith
value-digit acc (suc (suc (suc zero))) h = omega arith
value-digit acc (suc (suc (suc (suc zero)))) h = omega arith
value-digit acc (suc (suc (suc (suc (suc zero))))) h = omega arith
value-digit acc (suc (suc (suc (suc (suc (suc zero)))))) h = omega arith
value-digit acc (suc (suc (suc (suc (suc (suc (suc zero))))))) h = omega arith
value-digit acc (suc (suc (suc (suc (suc (suc (suc (suc zero)))))))) h = omega arith
value-digit acc (suc (suc (suc (suc (suc (suc (suc (suc (suc n))))))))) h = omega arith

value-digits : (fuel n : ℕ) → n < fuel + 10 → value_from 0 (codes (digits fuel n)) ≡ n
unfolding digits
value-digits zero n h = omega (arith, value-digit 0 n (omega arith))
value-digits (suc fuel) n h = elim (Bool-cases (ltb n 10)) [
  | inl small ↦ rw small (omega (arith, value-digit 0 n (ground arith)))
  | inr large ↦ rw large (
      rw (codes-append (digits fuel (n / 10)) (digit (n % 10))) (
        rw (value_from-append 0 (codes (digits fuel (n / 10))) (codes (digit (n % 10)))) (
          omega (
            arith,
            value-digits fuel (n / 10) (omega arith),
            value-digit (value_from 0 (codes (digits fuel (n / 10)))) (n % 10) (omega arith),
          ))))
]

-- Different numbers have different texts.
pub decimal-injective : (m n : ℕ) → decimal m ≡ decimal n → m ≡ n
unfolding decimal
decimal-injective m n h =
    sym (value-digits m m (omega arith))
    ∙ ap (λ s. value_from 0 (codes s)) h
    ∙ value-digits n n (omega arith)
