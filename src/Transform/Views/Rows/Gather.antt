-- ===== src/Transform/Views/Rows/Gather.antt =====
-- Reading a table by row positions that it has: `iloc`, in transformations/row_permutation.py.
use schema_guard.Base.{
  ℕ, zero, suc, ◌<◌, String, ◌==◌, some, some-injective, subst, Bool-cases, inl, inr, List, [], ◌∷◌,
  map, length, length-map, ◌≡◌, refl, sym, ap, ◌∙◌, arith, ok, All,
}
use schema_guard.Base.Dict.{lookup}
use schema_guard.Transform.Frame.{Frame, Column, missing}
use schema_guard.Transform.Views.Rows.{at, pick, iloc, indices}

-- `xs[i]`, with a value for a position that is not there.
unfoldable pub get {ℓ} : {A : Type ℓ} → A → List A → ℕ → A
get d [] i = d
get d (x ∷ xs) zero = x
get d (x ∷ xs) (suc i) = get d xs i

abbrev pub gather {ℓ} : {A : Type ℓ} → A → List A → List ℕ → List A
gather d xs = map (get d xs)

abbrev pub Within : ℕ → ℕ → Type 0
Within n i = i < n

module _ {ℓ} {A : Type ℓ} (d : A) where
  at-ok : (xs : List A) (i : ℕ) → i < length xs → at i xs ≡ ok (get d xs i)
  unfolding at get
  at-ok [] i h = absurd (omega arith)
  at-ok (x ∷ xs) zero h = refl
  at-ok (x ∷ xs) (suc i) h = at-ok xs i (omega arith)

  pick-ok :
      (xs : List A) (is : List ℕ) → All (Within (length xs)) is → pick is xs ≡ ok (gather d xs is)
  unfolding pick
  pick-ok xs [] h = refl
  pick-ok xs (i ∷ is) h = rw (at-ok xs i h.0, pick-ok xs is h.1) refl

  gather-indices :
      (x : A) (xs : List A) (start n : ℕ)
      → gather d (x ∷ xs) (indices (suc start) n) ≡ gather d xs (indices start n)
  unfolding indices get
  gather-indices x xs start zero = refl
  gather-indices x xs start (suc n) = ap (◌∷◌ (get d xs start)) (gather-indices x xs (suc start) n)

  -- All positions in order give the list.
  pub gather_all : (xs : List A) → gather d xs (indices 0 (length xs)) ≡ xs
  unfolding indices get
  gather_all [] = refl
  gather_all (x ∷ xs) = ap (◌∷◌ x) (gather-indices x xs 0 (length xs) ∙ gather_all xs)

module _ {ℓ κ} {A : Type ℓ} {B : Type κ} (d : A) (e : B) (f : B → A) where
  pub get-map : (ys : List B) (j : ℕ) → j < length ys → get d (map f ys) j ≡ f (get e ys j)
  unfolding get
  get-map [] j h = absurd (omega arith)
  get-map (y ∷ ys) zero h = refl
  get-map (y ∷ ys) (suc j) h = get-map ys j (omega arith)

  pub gather-map :
      (ys : List B) (js : List ℕ)
      → All (Within (length ys)) js
      → gather d (map f ys) js ≡ map f (gather e ys js)
  gather-map ys [] h = refl
  gather-map ys (j ∷ js) h = rw (get-map ys j h.0, gather-map ys js h.1) refl

-- Every column of the frame with the cells at the given positions.
unfoldable pub gathered : List ℕ → Frame → Frame
gathered is [] = []
gathered is ((c, v) ∷ f) = (c, record v { cells = gather missing v.cells is }) ∷ gathered is f

abbrev pub HasRows : ℕ → Frame → Type 0
HasRows n = All (λ e. length e.1.cells ≡ n)

pub iloc-ok :
    (is : List ℕ) (n : ℕ) (f : Frame)
    → HasRows n f
    → All (Within n) is
    → iloc is f ≡ ok (gathered is f)
unfolding iloc gathered
iloc-ok is n [] h k = refl
iloc-ok is n ((c, v) ∷ f) h k =
    let inside = subst (λ m. All (Within m) is) (sym h.0) k in
    rw (pick-ok missing v.cells is inside, iloc-ok is n f h.1 k) refl

pub HasRows-gathered : (is : List ℕ) (f : Frame) → HasRows (length is) (gathered is f)
unfolding gathered
HasRows-gathered is [] = tt
HasRows-gathered is ((c, v) ∷ f) = (length-map (get missing v.cells) is, HasRows-gathered is f)

pub gathered-gathered :
    (js is : List ℕ) (f : Frame)
    → All (Within (length is)) js
    → gathered js (gathered is f) ≡ gathered (gather 0 is js) f
unfolding gathered
gathered-gathered js is [] h = refl
gathered-gathered js is ((c, v) ∷ f) h =
    rw (gather-map missing 0 (get missing v.cells) is js h, gathered-gathered js is f h) refl

pub gathered_all : (n : ℕ) (f : Frame) → HasRows n f → gathered (indices 0 n) f ≡ f
unfolding gathered
gathered_all n [] h = refl
gathered_all n ((c, v) ∷ f) h =
    let same : gather missing v.cells (indices 0 n) ≡ v.cells =
      ap (λ m. gather missing v.cells (indices 0 m)) (sym h.0) ∙ gather_all missing v.cells in
    rw (same, gathered_all n f h.1) refl

pub lookup-gathered :
    (c : String) (is : List ℕ) (f : Frame) {v : Column}
    → lookup c f ≡ some v
    → lookup c (gathered is f) ≡ some (record v { cells = gather missing v.cells is })
unfolding gathered lookup
lookup-gathered c is [] h = cc
lookup-gathered c is ((k, w) ∷ f) h = elim (Bool-cases (k == c)) [
  | inl e ↦ let same = some-injective (rw e at h) in rw (e, same) refl
  | inr e ↦ rw e (lookup-gathered c is f (rw e at h))
]
