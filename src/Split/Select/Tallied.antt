-- ===== src/Split/Select/Tallied.antt =====
-- The diagnostics of `select_fold_assignment` of splits/selection.py: one for each ordered pair of
-- different folds, each counted once.
use schema_guard.Base.{
  ℕ, suc, ◌+◌, true, if◌then◌else◌, eqb, List, [], ◌∷◌, ◌++◌, length, length-append, String, ◌≡◌,
  refl, sym, subst, arith, Bool-cases, inl, inr, Result, ok, ◌>>=◌, >>=-eq-ok, ok-injective,
}
use schema_guard.Base.Dict.{Dict}
use schema_guard.Split.Config.{Arithmetic, SplitGenerationConfig, config_is_valid}
use schema_guard.Split.Candidate.{
  Selection, Item, empty_partition, hard_constraint_violation, valid, candidate,
}
use schema_guard.Split.Select.{
  Search, Outcome, pass, constraint_infeasible, note_item, no_search, search_tests, search_folds,
  range_from, select_least, select_fold_assignment,
}

abbrev empties : List (ℕ × ℕ × Item) → ℕ
empties [] = 0
empties ((i, j, empty_partition) ∷ ds) = suc (empties ds)
empties ((i, j, hard_constraint_violation c) ∷ ds) = empties ds
empties ((i, j, valid s) ∷ ds) = empties ds

empties-append : (ds es : List (ℕ × ℕ × Item)) → empties (ds ++ es) ≡ empties ds + empties es
empties-append [] es = omega arith
empties-append ((i, j, empty_partition) ∷ ds) es = omega (arith, empties-append ds es)
empties-append ((i, j, hard_constraint_violation c) ∷ ds) es = empties-append ds es
empties-append ((i, j, valid s) ∷ ds) es = empties-append ds es

-- The number of entries other than `i`.
abbrev others : ℕ → List ℕ → ℕ
others i [] = 0
others i (j ∷ js) = (if eqb i j then 0 else 1) + others i js

abbrev all_others : List ℕ → List ℕ → ℕ
all_others [] js = 0
all_others (i ∷ is_) js = others i js + all_others is_ js

-- `s` has `n` diagnostics: those of the candidates, of the hard violations and of the empty ones.
pub record HasTally (n : ℕ) (s : Search) : Type 0 where
  pub noted : length s.candidate_diagnostics ≡ n
  pub split :
      length s.candidate_diagnostics
      ≡ length s.candidates + s.hard_violation_candidates + empties s.candidate_diagnostics

note_item-HasTally :
    (i j n : ℕ) (item : Item) (s : Search) → HasTally n s → HasTally (n + 1) (note_item i j item s)
unfolding note_item
note_item-HasTally i j n empty_partition s h = record {
  noted =
      omega
        (arith, h.noted, length-append {0} s.candidate_diagnostics ((i, j, empty_partition) ∷ []));
  split = omega (
    arith,
    h.split,
    length-append {0} s.candidate_diagnostics ((i, j, empty_partition) ∷ []),
    empties-append s.candidate_diagnostics ((i, j, empty_partition) ∷ []),
  );
}
note_item-HasTally i j n (hard_constraint_violation c) s h = record {
  noted = omega (
    arith,
    h.noted,
    length-append {0} s.candidate_diagnostics ((i, j, hard_constraint_violation c) ∷ []),
  );
  split = omega (
    arith,
    h.split,
    length-append {0} s.candidate_diagnostics ((i, j, hard_constraint_violation c) ∷ []),
    empties-append s.candidate_diagnostics ((i, j, hard_constraint_violation c) ∷ []),
  );
}
note_item-HasTally i j n (valid c) s h = record {
  noted = omega (arith, h.noted, length-append {0} s.candidate_diagnostics ((i, j, valid c) ∷ []));
  split = omega (
    arith,
    h.split,
    length-append {0} s.candidate_diagnostics ((i, j, valid c) ∷ []),
    length-append {0} s.candidates (c ∷ []),
    empties-append s.candidate_diagnostics ((i, j, valid c) ∷ []),
  );
}

module _ (judged : ℕ → ℕ → Result Item) where
  search_tests-HasTally :
      (i : ℕ) (js : List ℕ) (n : ℕ) (s t : Search)
      → search_tests judged i js s ≡ ok t
      → HasTally n s
      → HasTally (others i js + n) t
  unfolding search_tests
  search_tests-HasTally i [] n s t h c =
      subst (λ m. HasTally m t) (omega arith) (subst (HasTally n) (ok-injective h) c)
  search_tests-HasTally i (j ∷ js) n s t h c = elim (Bool-cases (eqb i j)) [
    | inl same ↦
        subst (λ m. HasTally m t) (ground (arith, same))
          (search_tests-HasTally i js n s t (rw same at h) c)
    | inr differ ↦
        let step : (judged i j >>= (λ item. ok (note_item i j item s)) >>= search_tests judged i js)
            ≡ ok t =
          rw differ at h in
        let (u, first, rest) = >>=-eq-ok _ _ step in
        let (item, made, noted) = >>=-eq-ok (judged i j) _ first in
        subst (λ m. HasTally m t) (ground (arith, differ))
          (search_tests-HasTally i js (n + 1) u t rest
            (subst (HasTally (n + 1)) (ok-injective noted) (note_item-HasTally i j n item s c)))
  ]

  search_folds-HasTally :
      (is_ js : List ℕ) (n : ℕ) (s t : Search)
      → search_folds judged is_ js s ≡ ok t
      → HasTally n s
      → HasTally (all_others is_ js + n) t
  unfolding search_folds
  search_folds-HasTally [] js n s t h c =
      subst (λ m. HasTally m t) (omega arith) (subst (HasTally n) (ok-injective h) c)
  search_folds-HasTally (i ∷ is_) js n s t h c =
      let (u, first, rest) = >>=-eq-ok _ _ h in
      subst (λ m. HasTally m t) (omega arith)
        (search_folds-HasTally is_ js (others i js + n) u t rest
          (search_tests-HasTally i js n s u first c))

abbrev pub search_of : Outcome → Search
search_of (constraint_infeasible s) = s
search_of (pass best s) = s

search_of-select_least : (s : Search) (cs : List Selection) → search_of (select_least s cs) ≡ s
unfolding select_least
search_of-select_least s [] = refl
search_of-select_least s (c ∷ cs) = refl

-- A selection under a valid configuration has 20 diagnostics, each of a candidate that is valid,
-- violates a constraint or has an empty partition, and the first two numbers are the reported ones.
pub select_fold_assignment-HasTally :
    (a : Arithmetic) (config : SplitGenerationConfig) (fold_by_row : Dict ℕ) (row_ids : List String)
    (target_by_row : Dict ℕ) (o : Outcome)
    → config_is_valid a config ≡ true
    → select_fold_assignment a config fold_by_row row_ids target_by_row ≡ ok o
    → HasTally 20 (search_of o)
unfolding select_fold_assignment config_is_valid range_from
select_fold_assignment-HasTally a config fold_by_row row_ids target_by_row o v h =
    let five : config.group_folds ≡ 5 = ground arith in
    let (s, searched, chosen) = >>=-eq-ok _ _ h in
    let same : search_of (select_least s s.candidates) ≡ s =
      search_of-select_least s s.candidates in
    subst (λ p. HasTally 20 (search_of p)) (ok-injective chosen)
      (subst (HasTally 20) (sym same) (
        subst (λ n. HasTally (all_others (range_from 0 n) (range_from 0 n) + 0) s) five
          (search_folds-HasTally (candidate a config fold_by_row row_ids target_by_row)
            (range_from 0 config.group_folds) (range_from 0 config.group_folds) 0 no_search s
            searched (record { noted = refl; split = refl }))))
