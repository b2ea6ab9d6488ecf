-- ===== src/Base/Counting.antt =====
-- Python's sets and counters of values that a Boolean test compares, and the minimum of a list by a
-- strict order.
use Prim.Native.Nat.{ℕ, suc, ◌+◌, ◌-◌}
use mathlib.Core.List.{List, [], ◌∷◌}
use mathlib.Core.Bool.{Bool, false, ◌||◌}
use schema_guard.Base.Tests.{if◌then◌else◌, ltb}

module _ {ℓ} {A : Type ℓ} (same : A → A → Bool) where
  unfoldable pub member : A → List A → Bool
  member x [] = false
  member x (y ∷ ys) = same y x || member x ys

  -- `len(set(xs))`
  unfoldable pub distinct_count : List A → ℕ
  distinct_count [] = 0
  distinct_count (x ∷ xs) = let rest = distinct_count xs in if member x xs then rest else suc rest

  -- `Counter(xs)`
  unfoldable pub count_value : A → List (A × ℕ) → List (A × ℕ)
  count_value x [] = (x, 1) ∷ []
  count_value x ((y, n) ∷ ys) = if same y x then (y, n + 1) ∷ ys else (y, n) ∷ count_value x ys

  unfoldable pub counter_from : List (A × ℕ) → List A → List (A × ℕ)
  counter_from acc [] = acc
  counter_from acc (x ∷ xs) = counter_from (count_value x acc) xs

-- `sum(count - 1 for count in counts.values() if count > 1)`
unfoldable pub repeats {ℓ} : {A : Type ℓ} → List (A × ℕ) → ℕ
repeats [] = 0
repeats ((x, n) ∷ ys) = (if ltb 1 n then n - 1 else 0) + repeats ys
