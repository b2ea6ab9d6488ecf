-- ===== src/Tests/SplitRuns.antt =====
-- The selection of folds on ten rows of two classes in five folds.
use schema_guard.Base.{
  ℕ, ◌+◌, ◌-◌, ◌*◌, ◌/◌, ◌<◌, ◌≤◌, true, if◌then◌else◌, leb, ◌==◌, ◌||◌, some, List, [], ◌∷◌,
  String, ◌≡◌, refl, In, In-cons, inl, inr, zero, suc, some-injective, sym, subst, ap, here, there,
  Result, ok, err, arith,
}
use schema_guard.Base.Dict.{Dict, lookup, insert, contains}
use schema_guard.Split.Config.{
  Arithmetic, SplitGenerationConfig, frozen_seeds, frozen_datasets, config_is_valid, one,
}
use schema_guard.Split.Candidate.{
  Partition, train, part, Selection, valid, candidate, selection_of, no_counts, label_rows,
  fold_to_partition, count_rows, judge, has_empty_partition, count_row, violates, bump,
  class_deviation, lacks_class, size_deviation, tally_get, target_counts, train_folds_below,
}
use schema_guard.Split.Counts.{members, class_members}
use schema_guard.Split.Constraint.{candidate-constraints}
use schema_guard.Split.Folds.{at_index, folds, assign_folds, hold_out, covers}
use schema_guard.Hashing.{sort_texts, insert_text, text_le}
use schema_guard.Split.Select.{
  Search, Outcome, pass, constraint_infeasible, select_fold_assignment, key_precedes, no_search,
  search_folds, range_from, search_tests, select_least, note_item, least, precedes,
}
use schema_guard.Split.Select.Chosen.{IsBestChoice, select_fold_assignment-IsBestChoice}
use schema_guard.Split.Select.Tallied.{HasTally, search_of, select_fold_assignment-HasTally}
use schema_guard.Split.Groups.{IsGrouped, selected_groups}

abbrev total : List ℕ → ℕ
total [] = 0
total (n ∷ ns) = n + total ns

-- Multiples of 1 / one stand for the floats.
abbrev sample_arithmetic : Arithmetic
sample_arithmetic = record {
  divide = λ a b. a * one / b;
  distance = λ a b. if leb a b then b - a else a - b;
  add = ◌+◌;
  sum = total;
}

abbrev config_of : ℕ → SplitGenerationConfig
config_of minimum = record {
  group_folds = 5;
  train_fraction = 6 * one / 10;
  calibration_fraction = 2 * one / 10;
  test_fraction = 2 * one / 10;
  minimum_class_count_per_partition = minimum;
  seeds = frozen_seeds;
  datasets = frozen_datasets;
  max_workers = 2;
}

abbrev sample_config : SplitGenerationConfig
sample_config = config_of 1

config_lem : config_is_valid sample_arithmetic sample_config ≡ true
unfolding config_is_valid
config_lem = refl

abbrev sample_rows : List String
sample_rows = "d" ∷ "a" ∷ "c" ∷ "b" ∷ "f" ∷ "e" ∷ "g" ∷ "h" ∷ "j" ∷ "i" ∷ []

-- The held-out indices of the rows in ascending order: a and b, c and d, and so on.
abbrev sample_splits : List (List ℕ)
sample_splits = (0 ∷ 1 ∷ []) ∷ (2 ∷ 3 ∷ []) ∷ (4 ∷ 5 ∷ []) ∷ (6 ∷ 7 ∷ []) ∷ (8 ∷ 9 ∷ []) ∷ []

abbrev sample_targets : Dict ℕ
sample_targets =
    ("d", 1)
    ∷ ("a", 0)
    ∷ ("c", 0)
    ∷ ("b", 1)
    ∷ ("f", 1)
    ∷ ("e", 0)
    ∷ ("g", 0)
    ∷ ("h", 1)
    ∷ ("j", 1)
    ∷ ("i", 0)
    ∷ []

abbrev sample_folds : Dict ℕ
sample_folds =
    ("a", 0)
    ∷ ("b", 0)
    ∷ ("c", 1)
    ∷ ("d", 1)
    ∷ ("e", 2)
    ∷ ("f", 2)
    ∷ ("g", 3)
    ∷ ("h", 3)
    ∷ ("i", 4)
    ∷ ("j", 4)
    ∷ []

folds_runs : folds sample_rows sample_splits ≡ ok sample_folds
unfolding folds sort_texts assign_folds hold_out insert_text text_le lookup insert covers contains
folds_runs = refl

abbrev best_of : Selection → Outcome → Selection
best_of other (pass best s) = best
best_of other (constraint_infeasible s) = other

abbrev outcome_of : Result Outcome → Outcome
outcome_of (ok o) = o
outcome_of (err e) = constraint_infeasible no_search

sample_outcome : Outcome
sample_outcome =
    outcome_of (
      select_fold_assignment sample_arithmetic sample_config sample_folds sample_rows
        sample_targets)

sample_best : Selection
unfolding sample_outcome
sample_best =
    best_of (selection_of sample_arithmetic sample_config [] 0 [] no_counts 0 0) sample_outcome

sample_search : Search
unfolding sample_outcome
sample_search = search_of sample_outcome

-- All candidates are equally good; the first train folds decide.
best_folds : (sample_best.sort_key.calibration_fold ≡ 3) × (sample_best.sort_key.test_fold ≡ 4)
unfolding sample_outcome sample_best sample_search select_fold_assignment search_folds range_from
    search_tests candidate label_rows lookup fold_to_partition count_rows insert select_least
    note_item judge has_empty_partition count_row violates bump class_deviation lacks_class
    selection_of size_deviation tally_get target_counts train_folds_below key_precedes least
    precedes
best_folds = (refl, refl)

selected_lem :
    select_fold_assignment sample_arithmetic sample_config sample_folds sample_rows sample_targets
    ≡ ok (pass sample_best sample_search)
unfolding sample_outcome sample_best sample_search select_fold_assignment search_folds range_from
    search_tests candidate label_rows lookup fold_to_partition count_rows insert select_least
    note_item judge has_empty_partition count_row violates bump class_deviation lacks_class
    selection_of size_deviation tally_get target_counts train_folds_below key_precedes least
    precedes
selected_lem = refl

candidate_lem :
    candidate sample_arithmetic sample_config sample_folds sample_rows sample_targets 3 4
    ≡ ok (valid sample_best)
unfolding sample_outcome sample_best sample_search select_fold_assignment search_folds range_from
    search_tests candidate label_rows lookup fold_to_partition count_rows insert select_least
    note_item judge has_empty_partition count_row violates bump class_deviation lacks_class
    selection_of size_deviation tally_get target_counts train_folds_below key_precedes least
    precedes
candidate_lem = refl

select_fold_assignment-IsBestChoice_example :
    IsBestChoice sample_arithmetic sample_config sample_folds sample_rows sample_targets
      (pass sample_best sample_search)
select_fold_assignment-IsBestChoice_example =
    select_fold_assignment-IsBestChoice sample_arithmetic sample_config sample_folds sample_rows
      sample_targets (pass sample_best sample_search) selected_lem

select_fold_assignment-HasTally_example : HasTally 20 (search_of (pass sample_best sample_search))
select_fold_assignment-HasTally_example =
    select_fold_assignment-HasTally sample_arithmetic sample_config sample_folds sample_rows
      sample_targets (pass sample_best sample_search) config_lem selected_lem

candidate-constraints_example :
    (part train sample_best.partition_counts ≡ members sample_best.labels train sample_rows)
    × (0 < part train sample_best.partition_counts)
    × ((r : String) (code : ℕ)
        → lookup r sample_targets ≡ some code
        → 1 ≤ class_members sample_best.labels sample_targets train code sample_rows)
candidate-constraints_example =
    candidate-constraints sample_arithmetic sample_config sample_folds sample_rows sample_targets 3
      4 sample_best candidate_lem train

-- Rows belong together when their folds do.
abbrev sample_group : String → String
sample_group r =
    if r == "a" || r == "b"
    then "ab"
    else if r == "c" || r == "d"
    then "cd"
    else if r == "e" || r == "f"
    then "ef"
    else if r == "g" || r == "h"
    then "gh"
    else "ij"

abbrev group_number : String → ℕ
group_number g =
    if g == "ab"
    then 0
    else if g == "cd"
    then 1
    else if g == "ef"
    then 2
    else if g == "gh"
    then 3
    else 4

In-pair : (a i : ℕ) → In i (2 * a ∷ (2 * a + 1) ∷ []) → a ≡ i / 2
In-pair a i m = elim (In-cons m) [
  | inl e ↦ omega (arith, e)
  | inr deep ↦ elim (In-cons deep) [ inl e ↦ omega (arith, e) | inr rest ↦ elim rest [ ] ]
]

split_half :
    (k : ℕ) (held : List ℕ) (i : ℕ) → at_index sample_splits k ≡ some held → In i held → k ≡ i / 2
split_half zero held i e m = In-pair 0 i (subst (In i) (sym (some-injective e)) m)
split_half (suc zero) held i e m = In-pair 1 i (subst (In i) (sym (some-injective e)) m)
split_half (suc (suc zero)) held i e m = In-pair 2 i (subst (In i) (sym (some-injective e)) m)
split_half (suc (suc (suc zero))) held i e m = In-pair 3 i (subst (In i) (sym (some-injective e)) m)
split_half (suc (suc (suc (suc zero)))) held i e m =
    In-pair 4 i (subst (In i) (sym (some-injective e)) m)
split_half (suc (suc (suc (suc (suc k))))) held i e m = absurd (cc)

abbrev ordered_rows : List String
ordered_rows = "a" ∷ "b" ∷ "c" ∷ "d" ∷ "e" ∷ "f" ∷ "g" ∷ "h" ∷ "i" ∷ "j" ∷ []

ordered_lem : sort_texts sample_rows ≡ ordered_rows
unfolding sort_texts insert_text text_le
ordered_lem = refl

row_half :
    (i : ℕ) (r : String) → at_index ordered_rows i ≡ some r → group_number (sample_group r) ≡ i / 2
row_half zero r e = rw (← some-injective e) refl
row_half (suc zero) r e = rw (← some-injective e) refl
row_half (suc (suc zero)) r e = rw (← some-injective e) refl
row_half (suc (suc (suc zero))) r e = rw (← some-injective e) refl
row_half (suc (suc (suc (suc zero)))) r e = rw (← some-injective e) refl
row_half (suc (suc (suc (suc (suc zero))))) r e = rw (← some-injective e) refl
row_half (suc (suc (suc (suc (suc (suc zero)))))) r e = rw (← some-injective e) refl
row_half (suc (suc (suc (suc (suc (suc (suc zero))))))) r e = rw (← some-injective e) refl
row_half (suc (suc (suc (suc (suc (suc (suc (suc zero)))))))) r e = rw (← some-injective e) refl
row_half (suc (suc (suc (suc (suc (suc (suc (suc (suc zero))))))))) r e =
    rw (← some-injective e) refl
row_half (suc (suc (suc (suc (suc (suc (suc (suc (suc (suc i)))))))))) r e = absurd (cc)

sample_IsGrouped : IsGrouped sample_group (sort_texts sample_rows) sample_splits
unfolding IsGrouped
sample_IsGrouped k l held other i j r q at_k at_l in_k in_l row_i row_j same =
    let half_k = split_half k held i at_k in_k in
    let half_l = split_half l other j at_l in_l in
    let group_r = row_half i r (subst (λ rows. at_index rows i ≡ some r) ordered_lem row_i) in
    let group_q = row_half j q (subst (λ rows. at_index rows j ≡ some q) ordered_lem row_j) in
    omega (arith, half_k, half_l, group_r, group_q, ap group_number same)

selected_groups_example :
    (p : Partition) × (lookup "a" sample_best.labels ≡ some p)
    × (lookup "b" sample_best.labels ≡ some p)
selected_groups_example =
    selected_groups sample_arithmetic sample_config sample_rows sample_targets sample_splits
      sample_group sample_folds sample_best sample_search "a" "b" sample_IsGrouped folds_runs
      selected_lem (there here) (there (there (there here))) refl

-- No partition of two rows has two rows of each class.
infeasible_search : Search
infeasible_search = search_of (
    outcome_of (
      select_fold_assignment sample_arithmetic (config_of 2) sample_folds sample_rows
        sample_targets))

infeasible_lem :
    select_fold_assignment sample_arithmetic (config_of 2) sample_folds sample_rows sample_targets
    ≡ ok (constraint_infeasible infeasible_search)
unfolding infeasible_search sample_outcome sample_best sample_search select_fold_assignment
    search_folds range_from search_tests candidate label_rows lookup fold_to_partition count_rows
    insert select_least note_item judge has_empty_partition count_row violates bump class_deviation
    lacks_class selection_of size_deviation tally_get target_counts train_folds_below key_precedes
    least precedes
infeasible_lem = refl
