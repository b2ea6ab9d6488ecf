-- ===== src/Base/Sorting.antt =====
-- `sorted(...)` by a Boolean order, which is stable.
use mathlib.Core.Path.{◌≡◌, refl, ap, ◌∙◌}
use mathlib.Core.Logic.{inl, inr}
use mathlib.Core.List.{List, [], ◌∷◌, map}
use mathlib.Core.Bool.{Bool}
use schema_guard.Base.Tests.{if◌then◌else◌, Bool-cases}
use schema_guard.Base.Lists.{All}

module _ {ℓ} {A : Type ℓ} (le : A → A → Bool) where
  unfoldable pub insert_by : A → List A → List A
  insert_by x [] = x ∷ []
  insert_by x (y ∷ ys) = if le x y then x ∷ y ∷ ys else y ∷ insert_by x ys

  unfoldable pub sort_by : List A → List A
  sort_by [] = []
  sort_by (x ∷ xs) = insert_by x (sort_by xs)

  module _ {κ} (P : A → Type κ) where
    All-insert_by : (x : A) (ys : List A) → P x → All P ys → All P (insert_by x ys)
    unfolding insert_by
    All-insert_by x [] p h = (p, tt)
    All-insert_by x (y ∷ ys) p h = elim (Bool-cases (le x y)) [
      | inl e ↦ rw e (p, h)
      | inr e ↦ rw e (h.0, All-insert_by x ys p h.1)
    ]

    pub All-sort_by : (xs : List A) → All P xs → All P (sort_by xs)
    unfolding sort_by
    All-sort_by [] h = tt
    All-sort_by (x ∷ xs) h = All-insert_by x (sort_by xs) h.0 (All-sort_by xs h.1)

-- A function that respects the orders of the elements with a property commutes with sorting.
module _ {ℓ κ μ} {A : Type ℓ} {B : Type κ} (le : A → A → Bool) (le' : B → B → Bool) (f : A → B)
    (P : A → Type μ) (agree : (x y : A) → P x → P y → le x y ≡ le' (f x) (f y)) where
  map-insert_by :
      (x : A) (ys : List A)
      → P x
      → All P ys
      → map f (insert_by le x ys) ≡ insert_by le' (f x) (map f ys)
  unfolding insert_by
  map-insert_by x [] p h = refl
  map-insert_by x (y ∷ ys) p h = elim (Bool-cases (le' (f x) (f y))) [
    | inl e ↦ rw (agree x y p h.0, e) refl
    | inr e ↦ rw (agree x y p h.0, e) (ap (◌∷◌ (f y)) (map-insert_by x ys p h.1))
  ]

  pub map-sort_by : (xs : List A) → All P xs → map f (sort_by le xs) ≡ sort_by le' (map f xs)
  unfolding sort_by
  map-sort_by [] h = refl
  map-sort_by (x ∷ xs) h =
      map-insert_by x (sort_by le xs) h.0 (All-sort_by le P xs h.1)
      ∙ ap (insert_by le' (f x)) (map-sort_by xs h.1)
