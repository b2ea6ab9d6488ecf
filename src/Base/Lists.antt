-- ===== src/Base/Lists.antt =====
-- Lists: native lengths, the last element, and predicates by recursion.
use Prim.Native.Nat.{ℕ, suc, ◌+◌}
use mathlib.Core.Path.{◌≡◌, refl, ap, subst}
use mathlib.Core.Logic.{◌⊎◌, inl, inr}
use mathlib.Core.List.{List, [], ◌∷◌, ◌++◌, map}
use mathlib.Core.Bool.{Bool, true, ◌&&◌}
use mathlib.Core.Option.{Option, none, some}
use native.Mathlib.Omega.{arith}

module _ {ℓ} {A : Type ℓ} where
  abbrev pub length : List A → ℕ
  length [] = 0
  length (x ∷ xs) = suc (length xs)

  -- `xs[-1]`, absent for an empty list.
  abbrev pub last : List A → Option A
  last [] = none
  last (x ∷ []) = some x
  last (x ∷ y ∷ xs) = last (y ∷ xs)

  -- `xs[-1] = f(xs[-1])`; an empty list stays empty.
  abbrev pub map_last : (A → A) → List A → List A
  map_last f [] = []
  map_last f (x ∷ []) = f x ∷ []
  map_last f (x ∷ y ∷ xs) = x ∷ map_last f (y ∷ xs)

  -- `all(p(x) for x in xs)`
  abbrev pub all : (A → Bool) → List A → Bool
  all p [] = true
  all p (x ∷ xs) = p x && all p xs

  abbrev pub All {κ} : (A → Type κ) → List A → Type κ
  All P [] = Unit
  All P (x ∷ xs) = P x × All P xs

module _ {ℓ} {A : Type ℓ} where
  pub length-append : (xs ys : List A) → length (xs ++ ys) ≡ length xs + length ys
  length-append [] ys = omega arith
  length-append (x ∷ xs) ys = omega (arith, length-append xs ys)

  pub length-map {κ} : {B : Type κ} (f : A → B) (xs : List A) → length (map f xs) ≡ length xs
  length-map f [] = refl
  length-map f (x ∷ xs) = ap suc (length-map f xs)

  pub length-map_last : (f : A → A) (xs : List A) → length (map_last f xs) ≡ length xs
  length-map_last f [] = refl
  length-map_last f (x ∷ []) = refl
  length-map_last f (x ∷ y ∷ xs) = ap suc (length-map_last f (y ∷ xs))

  pub All-append {κ} : (P : A → Type κ) (xs ys : List A) → All P xs → All P ys → All P (xs ++ ys)
  All-append P [] ys h k = k
  All-append P (x ∷ xs) ys h k = (h.0, All-append P xs ys h.1 k)

  pub All-map {κ μ} :
      (P : A → Type κ) (Q : A → Type μ) (f : (a : A) → P a → Q a) (xs : List A)
      → All P xs
      → All Q xs
  All-map P Q f [] h = tt
  All-map P Q f (x ∷ xs) h = (f x h.0, All-map P Q f xs h.1)

  -- What `all` has tested holds of each element.
  pub all→All : (p : A → Bool) (xs : List A) → all p xs ≡ true → All (λ x. p x ≡ true) xs
  all→All p [] h = tt
  all→All p (x ∷ xs) h = (ground arith, all→All p xs (ground arith))

  pub All→all : (p : A → Bool) (xs : List A) → All (λ x. p x ≡ true) xs → all p xs ≡ true
  All→all p [] h = refl
  All→all p (x ∷ xs) h = ground (arith, All→all p xs h.1)

module _ {ℓ} {A : Type ℓ} where
  pub last-All {κ} : (P : A → Type κ) (xs : List A) {x : A} → All P xs → last xs ≡ some x → P x
  last-All P [] h e = absurd (cc)
  last-All P (y ∷ []) h e = subst P (ground arith) h.0
  last-All P (y ∷ z ∷ xs) h e = last-All P (z ∷ xs) h.1 e

  -- A rewritten last element passes a test if the old one passed it.
  pub all-map_last :
      (p : A → Bool) (f : A → A)
      → ((x : A) → p x ≡ true → p (f x) ≡ true)
      → (xs : List A) → all p xs ≡ true
      → all p (map_last f xs) ≡ true
  all-map_last p f keep [] h = refl
  all-map_last p f keep (x ∷ []) h = ground (arith, keep x)
  all-map_last p f keep (x ∷ y ∷ xs) h = ground (arith, all-map_last p f keep (y ∷ xs))

  pub last-map_last :
      (f : A → A) (xs : List A) {x : A} → last xs ≡ some x → last (map_last f xs) ≡ some (f x)
  last-map_last f [] e = absurd (cc)
  last-map_last f (y ∷ []) e = ground arith
  last-map_last f (y ∷ z ∷ []) e = ground arith
  last-map_last f (y ∷ z ∷ w ∷ xs) e = last-map_last f (z ∷ w ∷ xs) e

  pub all-append :
      (p : A → Bool) (xs ys : List A) → all p xs ≡ true → all p ys ≡ true → all p (xs ++ ys) ≡ true
  all-append p [] ys h k = k
  all-append p (x ∷ xs) ys h k = ground (arith, all-append p xs ys)

  pub last_of_cons : (x : A) (xs : List A) → (y : A) × (last (x ∷ xs) ≡ some y)
  last_of_cons x [] = (x, refl)
  last_of_cons x (y ∷ xs) = last_of_cons y xs

module _ {ℓ} {A : Type ℓ} where
  -- The beginnings of a list, the shortest first.
  abbrev pub prefixes : List A → List (List A)
  prefixes [] = [] ∷ []
  prefixes (x ∷ xs) = [] ∷ map (◌∷◌ x) (prefixes xs)

  -- A value is an element.
  pub data In (x : A) : List A → Type ℓ where
    here : {xs : List A} → In x (x ∷ xs)
    there : {y : A} {xs : List A} → In x xs → In x (y ∷ xs)

module _ {ℓ} {A : Type ℓ} where
  pub In-cons : {x y : A} {xs : List A} → In x (y ∷ xs) → (x ≡ y) ⊎ In x xs
  In-cons here = inl refl
  In-cons (there i) = inr i

  pub In-append_left : {x : A} {xs : List A} (ys : List A) → In x xs → In x (xs ++ ys)
  In-append_left ys here = here
  In-append_left ys (there i) = there (In-append_left ys i)

  pub In-append_right : {x : A} (xs : List A) {ys : List A} → In x ys → In x (xs ++ ys)
  In-append_right [] i = i
  In-append_right (y ∷ xs) i = there (In-append_right xs i)

  pub In-append : {x : A} (xs : List A) {ys : List A} → In x (xs ++ ys) → In x xs ⊎ In x ys
  In-append [] i = inr i
  In-append (y ∷ xs) here = inl here
  In-append (y ∷ xs) (there i) = elim (In-append xs i) [ inl j ↦ inl (there j) | inr j ↦ inr j ]
