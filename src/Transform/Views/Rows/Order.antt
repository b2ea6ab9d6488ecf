-- ===== src/Transform/Views/Rows/Order.antt =====
-- The positions that restore the order of the rows: `_reconstruct` of
-- transformations/row_permutation.py sorts by the ranks.
use schema_guard.Base.{
  ℕ, zero, suc, ◌+◌, ◌<◌, ◌≤◌, Bool, true, false, leb, eq_refl, Option, some, none, some-injective,
  List, [], ◌∷◌, map, length, length-map, String, ◌≡◌, refl, sym, ap, ◌∙◌, arith, All, Bool-cases,
  inl, inr,
}
use schema_guard.Base.Dict.{contains}
use schema_guard.Base.Sorting.{insert_by, sort_by, All-sort_by, map-sort_by}
use schema_guard.Transform.Frame.{distinct}
use schema_guard.Transform.Views.Rows.{indices, last_position, rank_le, enumerate, indexes}
use schema_guard.Transform.Views.Rows.Gather.{get, gather, Within, gather_all}

abbrev pub sort_numbers : List ℕ → List ℕ
sort_numbers = sort_by leb

insert_comm :
    (m n : ℕ) (ks : List ℕ)
    → insert_by leb m (insert_by leb n ks) ≡ insert_by leb n (insert_by leb m ks)
unfolding insert_by
insert_comm m n [] = ground arith
insert_comm m n (k ∷ ks) = ground (arith, insert_comm m n ks)

sort_numbers-insert_by {ℓ} :
    {A : Type ℓ} (le : A × ℕ → A × ℕ → Bool) (p : A × ℕ) (ps : List (A × ℕ))
    → sort_numbers (indexes (insert_by le p ps)) ≡ insert_by leb p.1 (sort_numbers (indexes ps))
unfolding insert_by sort_by
sort_numbers-insert_by le p [] = refl
sort_numbers-insert_by le p (q ∷ qs) = elim (Bool-cases (le p q)) [
  | inl e ↦ rw e refl
  | inr e ↦ rw e (
      ap (insert_by leb q.1) (sort_numbers-insert_by le p qs)
      ∙ insert_comm q.1 p.1 (sort_numbers (indexes qs)))
]

-- Sorting by another order first changes nothing.
pub sort_numbers-sort_by {ℓ} :
    {A : Type ℓ} (le : A × ℕ → A × ℕ → Bool) (ps : List (A × ℕ))
    → sort_numbers (indexes (sort_by le ps)) ≡ sort_numbers (indexes ps)
unfolding sort_by
sort_numbers-sort_by le [] = refl
sort_numbers-sort_by le (p ∷ ps) =
    sort_numbers-insert_by le p (sort_by le ps)
    ∙ ap (insert_by leb p.1) (sort_numbers-sort_by le ps)

pub indexes-enumerate {ℓ} :
    {A : Type ℓ} (start : ℕ) (xs : List A)
    → indexes (enumerate start xs) ≡ indices start (length xs)
unfolding enumerate indices
indexes-enumerate start [] = refl
indexes-enumerate start (x ∷ xs) = ap (◌∷◌ start) (indexes-enumerate (suc start) xs)

insert_first :
    (start n : ℕ) → insert_by leb start (indices (suc start) n) ≡ start ∷ indices (suc start) n
unfolding insert_by indices
insert_first start zero = refl
insert_first start (suc n) = ground arith

pub sort_numbers-indices : (start n : ℕ) → sort_numbers (indices start n) ≡ indices start n
unfolding sort_by insert_by indices
sort_numbers-indices start zero = refl
sort_numbers-indices start (suc n) =
    ap (insert_by leb start) (sort_numbers-indices (suc start) n) ∙ insert_first start n

-- The positions that a sort gives, put in order, are all positions.
pub sort_numbers-positions {ℓ} :
    {A : Type ℓ} (le : A × ℕ → A × ℕ → Bool) (xs : List A)
    → sort_numbers (indexes (sort_by le (enumerate 0 xs))) ≡ indices 0 (length xs)
sort_numbers-positions le xs =
    sort_numbers-sort_by le (enumerate 0 xs)
    ∙ ap sort_numbers (indexes-enumerate 0 xs)
    ∙ sort_numbers-indices 0 (length xs)

enumerate-Within {ℓ} :
    {A : Type ℓ} (start n : ℕ) (xs : List A)
    → start + length xs ≤ n
    → All (λ p. p.1 < n) (enumerate start xs)
unfolding enumerate
enumerate-Within start n [] h = tt
enumerate-Within start n (x ∷ xs) h = (omega arith, enumerate-Within (suc start) n xs (omega arith))

indexes-All {ℓ} :
    {A : Type ℓ} (n : ℕ) (ps : List (A × ℕ)) → All (λ p. p.1 < n) ps → All (Within n) (indexes ps)
indexes-All n [] h = tt
indexes-All n (p ∷ ps) h = (h.0, indexes-All n ps h.1)

pub positions-Within {ℓ} :
    {A : Type ℓ} (le : A × ℕ → A × ℕ → Bool) (xs : List A)
    → All (Within (length xs)) (indexes (sort_by le (enumerate 0 xs)))
positions-Within le xs = indexes-All (length xs) _ (
    All-sort_by le (λ p. p.1 < length xs) (enumerate 0 xs)
      (enumerate-Within 0 (length xs) xs (omega arith)))

pub indices-Within : (start m n : ℕ) → start + m ≤ n → All (Within n) (indices start m)
unfolding indices
indices-Within start zero n h = tt
indices-Within start (suc m) n h = (omega arith, indices-Within (suc start) m n (omega arith))

-- The ranks of a list of numbers.
abbrev pub ranked : List ℕ → List (Option ℕ × ℕ)
ranked order = enumerate 0 (map some order)

enumerate-get :
    (order whole : List ℕ) (start : ℕ)
    → ((j : ℕ) → get 0 order j ≡ get 0 whole (start + j))
    → All (λ p. p.0 ≡ some (get 0 whole p.1)) (enumerate start (map some order))
unfolding enumerate get
enumerate-get [] whole start h = tt
enumerate-get (k ∷ ks) whole start h = (
  ap some (h 0 ∙ ap (get 0 whole) (omega arith)),
  enumerate-get ks whole (suc start) (λ j. h (suc j) ∙ ap (get 0 whole) (omega arith)),
)

rank_le-agree :
    (order : List ℕ) (p q : Option ℕ × ℕ)
    → p.0 ≡ some (get 0 order p.1)
    → q.0 ≡ some (get 0 order q.1)
    → rank_le p q ≡ leb (get 0 order p.1) (get 0 order q.1)
unfolding rank_le
rank_le-agree order (none, i) q h k = cc
rank_le-agree order (some a, i) (none, j) h k = cc
rank_le-agree order (some a, i) (some b, j) h k = rw (some-injective h, some-injective k) refl

gather-indexes {ℓ} :
    {A : Type ℓ} (order : List ℕ) (ps : List (A × ℕ))
    → gather 0 order (indexes ps) ≡ map (λ p. get 0 order p.1) ps
gather-indexes order [] = refl
gather-indexes order (p ∷ ps) = ap (◌∷◌ (get 0 order p.1)) (gather-indexes order ps)

-- The numbers at the positions that the sort by rank gives are the sorted numbers.
pub gather-ranked :
    (order : List ℕ)
    → gather 0 order (indexes (sort_by rank_le (ranked order))) ≡ sort_numbers order
gather-ranked order =
    gather-indexes order (sort_by rank_le (ranked order))
    ∙ map-sort_by rank_le leb (λ p. get 0 order p.1) (λ p. p.0 ≡ some (get 0 order p.1))
        (rank_le-agree order) (ranked order)
        (enumerate-get order order 0 (λ j. ap (get 0 order) (omega arith)))
    ∙ ap sort_numbers (
        sym (gather-indexes order (ranked order))
        ∙ ap (gather 0 order) (indexes-enumerate 0 (map some order))
        ∙ ap (λ n. gather 0 order (indices 0 n)) (length-map some order)
        ∙ gather_all 0 order)

last_position_absent :
    (start : ℕ) (s : String) (rs : List String)
    → contains s rs ≡ false
    → last_position start s rs ≡ none
unfolding last_position contains
last_position_absent start s [] h = refl
last_position_absent start s (r ∷ rs) h =
    rw (last_position_absent (suc start) s rs (ground (arith, h))) (ground (arith, h))

-- Different identifiers are found where they stand.
pub last_position-get :
    (start i : ℕ) (rs : List String)
    → distinct rs ≡ true
    → i < length rs
    → last_position start (get "" rs i) rs ≡ some (start + i)
unfolding last_position distinct get
last_position-get start i [] d h = absurd (omega arith)
last_position-get start zero (r ∷ rs) d h =
    rw (last_position, last_position_absent (suc start) r rs (ground (arith, d)), eq_refl r)
      (ap some (omega arith))
last_position-get start (suc i) (r ∷ rs) d h =
    rw (last_position, last_position-get (suc start) i rs (ground (arith, d)) (omega arith))
      (ap some (omega arith))
