-- ===== src/Split/Select/Chosen.antt =====
-- The outcome of `select_fold_assignment` of splits/selection.py.
use schema_guard.Base.{
  ℕ, ◌<◌, false, List, [], ◌∷◌, String, ◌≡◌, ◌≢◌, inl, inr, arith, In, here, there, ok, >>=-eq-ok,
  ok-injective,
}
use schema_guard.Base.Dict.{Dict}
use schema_guard.Split.Config.{Arithmetic, SplitGenerationConfig}
use schema_guard.Split.Candidate.{Selection, valid, candidate}
use schema_guard.Split.Select.{
  Search, Outcome, pass, constraint_infeasible, no_search, search_folds, range_from, key_precedes,
  least, select_least, select_fold_assignment,
}
use schema_guard.Split.Select.Order.{IsLeast, least-In, least-IsLeast}
use schema_guard.Split.Select.Best.{search_folds-Collects, In-range_from, range_from_bound}

module _ (a : Arithmetic) (config : SplitGenerationConfig) (fold_by_row : Dict ℕ)
    (row_ids : List String) (target_by_row : Dict ℕ) where
  abbrev n : ℕ
  n = config.group_folds

  -- The candidate of two different folds meets the constraints.
  abbrev pub IsValidChoice : ℕ → ℕ → Selection → Type 0
  IsValidChoice i j c =
      (i < n)
      × (j < n)
      × (i ≢ j)
      × (candidate a config fold_by_row row_ids target_by_row i j ≡ ok (valid c))

  collected :
      (s : Search)
      → search_folds
          (candidate a config fold_by_row row_ids target_by_row)
          (range_from 0 n)
          (range_from 0 n)
          no_search
        ≡ ok s
      → ((i j : ℕ) (c : Selection) → IsValidChoice i j c → In c s.candidates)
        × ((c : Selection) → In c s.candidates → (i : ℕ) × (j : ℕ) × IsValidChoice i j c)
  collected s h =
      let all_pairs = search_folds-Collects (range_from 0 n) (range_from 0 n) no_search s h in
      (
        λ i j c v.
            all_pairs.complete i j c
              (
                In-range_from 0 n i (omega arith) (omega (arith, v.0)),
                In-range_from 0 n j (omega arith) (omega (arith, v.1)),
                v.2,
              )
              v.3,
        λ c m. elim (all_pairs.sound c m) [
          | inl old ↦ elim old [ ]
          | inr (i, j, p, e) ↦
              let below_i = range_from_bound 0 n i p.0 in
              let below_j = range_from_bound 0 n j p.1 in
              (i, j, (omega (arith, below_i), omega (arith, below_j), p.2, e))
        ],
      )

  IsLeast-of :
      (s : Search) (cs : List Selection) (best : Selection) (t : Search)
      → select_least s cs ≡ pass best t
      → In best cs × IsLeast best cs
  unfolding select_least
  IsLeast-of s [] best t h = cc
  IsLeast-of s (c ∷ cs) best t h =
      let e : least c cs ≡ best = cc in
      rw (← e) (
        elim (least-In c cs) [ inl same ↦ rw same here | inr deep ↦ there deep ],
        least-IsLeast c cs,
      )

  none_of :
      (s : Search) (cs : List Selection) (t : Search)
      → select_least s cs ≡ constraint_infeasible t
      → (c : Selection) → In c cs
      → ⊥
  unfolding select_least
  none_of s [] t h c m = elim m [ ]
  none_of s (d ∷ cs) t h c m = absurd (cc)

  pub select_fold_assignment_pass :
      (best : Selection) (s : Search)
      → select_fold_assignment a config fold_by_row row_ids target_by_row ≡ ok (pass best s)
      → ((i : ℕ) × (j : ℕ) × IsValidChoice i j best)
        × ((i j : ℕ) (c : Selection)
            → IsValidChoice i j c
            → key_precedes c.sort_key best.sort_key ≡ false)
  unfolding select_fold_assignment IsLeast
  select_fold_assignment_pass best s h =
      let (t, searched, chosen) = >>=-eq-ok _ _ h in
      let (complete, sound) = collected t searched in
      let (member, least_key) = IsLeast-of t t.candidates best s (ok-injective chosen) in
      (sound best member, λ i j c v. least_key c (complete i j c v))

  select_fold_assignment_infeasible :
      (s : Search)
      → select_fold_assignment a config fold_by_row row_ids target_by_row
        ≡ ok (constraint_infeasible s)
      → ¬ ((i : ℕ) × (j : ℕ) × (c : Selection) × IsValidChoice i j c)
  unfolding select_fold_assignment
  select_fold_assignment_infeasible s h (i, j, c, v) =
      let (t, searched, chosen) = >>=-eq-ok _ _ h in
      let (complete, sound) = collected t searched in
      none_of t t.candidates s (ok-injective chosen) c (complete i j c v)

  -- A valid choice of which no other has a smaller key, or no valid choice at all.
  pub IsBestChoice : Outcome → Type 0
  IsBestChoice (pass best s) =
      ((i : ℕ) × (j : ℕ) × IsValidChoice i j best)
      × ((i j : ℕ) (c : Selection)
          → IsValidChoice i j c
          → key_precedes c.sort_key best.sort_key ≡ false)
  IsBestChoice (constraint_infeasible s) =
      ¬ ((i : ℕ) × (j : ℕ) × (c : Selection) × IsValidChoice i j c)

  -- A selection that returns has selected the candidate of two different folds that meets the
  -- constraints and whose key no other such candidate's key precedes, or it reports that the
  -- constraints are infeasible and no two different folds meet them.
  pub select_fold_assignment-IsBestChoice :
      (o : Outcome)
      → select_fold_assignment a config fold_by_row row_ids target_by_row ≡ ok o
      → IsBestChoice o
  unfolding IsBestChoice
  select_fold_assignment-IsBestChoice (pass best s) h = select_fold_assignment_pass best s h
  select_fold_assignment-IsBestChoice (constraint_infeasible s) h =
      select_fold_assignment_infeasible s h
