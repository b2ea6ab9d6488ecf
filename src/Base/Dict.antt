-- ===== src/Base/Dict.antt =====
-- A Python dictionary with text keys: an association list in insertion order.
use Prim.Native.String.{String}
use mathlib.Core.Path.{◌≡◌, refl, subst}
use mathlib.Core.Bool.{Bool, false, ◌||◌}
use mathlib.Core.Option.{Option, none, some}
use mathlib.Core.List.{List, [], ◌∷◌, map}
use native.Mathlib.Omega.{arith}
use text.Mathlib.Text.{◌==◌}
use text.Mathlib.TextEquality.{eq_iff}
use mathlib.Core.Logic.{inl, inr}
use schema_guard.Base.Tests.{if◌then◌else◌, Bool-cases}
use schema_guard.Base.Lists.{All}

abbrev pub Dict {ℓ} : Type ℓ → Type ℓ
Dict V = List (String × V)

-- `k in ks`
unfoldable pub contains : String → List String → Bool
contains k [] = false
contains k (j ∷ js) = j == k || contains k js

module _ {ℓ} {V : Type ℓ} where
  -- `d.get(k)`
  unfoldable pub lookup : String → Dict V → Option V
  lookup k [] = none
  lookup k ((j, v) ∷ d) = if j == k then some v else lookup k d

  -- `d[k] = v`: an old key keeps its place.
  unfoldable pub insert : String → V → Dict V → Dict V
  insert k v [] = (k, v) ∷ []
  insert k v ((j, w) ∷ d) = if j == k then (j, v) ∷ d else (j, w) ∷ insert k v d

  abbrev pub keys : Dict V → List String
  keys = map (λ e. e.0)

  -- The dictionary without a key.
  unfoldable pub remove : String → Dict V → Dict V
  remove k [] = []
  remove k ((j, v) ∷ d) = let rest = remove k d in if j == k then rest else (j, v) ∷ rest

  pub lookup-remove :
      (k j : String) (d : Dict V) → lookup j (remove k d) ≡ (if k == j then none else lookup j d)
  unfolding lookup remove
  lookup-remove k j [] = ground arith
  lookup-remove k j ((i, w) ∷ d) =
      ground (arith, eq_iff k j, eq_iff i k, eq_iff i j, lookup-remove k j d)

  pub lookup-insert :
      (k j : String) (v : V) (d : Dict V)
      → lookup j (insert k v d) ≡ (if k == j then some v else lookup j d)
  unfolding lookup insert
  lookup-insert k j v [] = refl
  lookup-insert k j v ((i, w) ∷ d) =
      ground (arith, eq_iff k j, eq_iff i k, eq_iff i j, lookup-insert k j v d)

  -- Writing a key that is there changes no key and no order.
  pub keys-insert :
      (k : String) (v w : V) (d : Dict V) → lookup k d ≡ some w → keys (insert k v d) ≡ keys d
  unfolding lookup insert
  keys-insert k v w [] h = cc
  keys-insert k v w ((i, u) ∷ d) h = ground (arith, keys-insert k v w d)

  module _ {κ} (P : V → Type κ) where
    abbrev pub AllValues : Dict V → Type κ
    AllValues = All (λ e. P e.1)

    pub AllValues-lookup :
        (k : String) (d : Dict V) (v : V) → AllValues d → lookup k d ≡ some v → P v
    unfolding lookup
    AllValues-lookup k [] v h e = cc
    AllValues-lookup k ((j, w) ∷ d) v h e = elim (Bool-cases (j == k)) [
      | inl here ↦ subst P (ground arith) h.0
      | inr there ↦ AllValues-lookup k d v h.1 (rw there at e)
    ]

    pub AllValues-insert :
        (k : String) (v : V) (d : Dict V) → P v → AllValues d → AllValues (insert k v d)
    unfolding insert
    AllValues-insert k v [] p h = (p, tt)
    AllValues-insert k v ((j, w) ∷ d) p h = elim (Bool-cases (j == k)) [
      | inl here ↦ rw here (p, h.1)
      | inr there ↦ rw there (h.0, AllValues-insert k v d p h.1)
    ]
