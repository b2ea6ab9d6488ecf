-- ===== src/Tests/PilotRuns.antt =====
-- The selection of eight data sets among nine.
use schema_guard.Base.{
  ℕ, ◌+◌, ◌-◌, ◌*◌, ◌/◌, true, if◌then◌else◌, leb, some, List, [], ◌∷◌, ◌≡◌, refl, ok,
}
use schema_guard.Base.Dict.{contains}
use schema_guard.Base.Counting.{member, distinct_count, count_value, counter_from, repeats}
use schema_guard.Split.Config.{Arithmetic, one, frozen_seeds}
use schema_guard.Split.Select.{precedes}
use schema_guard.Pilot.Metadata.{
  Candidate, SelectionPolicy, task_type, schema_family, size_band, balance_band, policy_is_valid,
  largest, is_balanced, family_of, duplicate_profile,
}
use schema_guard.Pilot.Select.{
  model_order, insert_candidate, sort_candidates, all_different, is_eligible, combinations,
  covered_count, beats, improves, search_subsets, profiles, score_subset, best_subset,
  select_candidate_ids, Scored, find_anchor, without_anchor,
}
use schema_guard.Pilot.Select.Best.{IsBestSubset, select_candidate_ids-IsBestSubset}
use schema_guard.Pilot.Select.Shuffle.{exchange, select_candidate_ids-IsShuffle}

abbrev total : List ℕ → ℕ
total [] = 0
total (n ∷ ns) = n + total ns

abbrev fixed_point : Arithmetic
fixed_point = record {
  divide = λ a b. a * one / b;
  distance = λ a b. if leb a b then b - a else a - b;
  add = ◌+◌;
  sum = total;
}

abbrev sample_policy : SelectionPolicy
sample_policy = record {
  max_rows = 10000;
  max_features = 100;
  max_classes = 10;
  foundation_max_train_rows = 10000;
  balanced_max_class_fraction = 0x3fe3_3333_3333_3333;
  categorical_substantial_fraction = 3 * one / 10;
  small_dataset_max_rows = 1000;
  required_coverage = "binary" ∷ "multiclass" ∷ "small" ∷ [];
  duplicate_profile_fields = task_type ∷ schema_family ∷ size_band ∷ balance_band ∷ [];
}

policy_runs : policy_is_valid sample_policy ≡ true
unfolding policy_is_valid contains
policy_runs = refl

abbrev candidate_of : ℕ → ℕ → ℕ → Candidate
candidate_of dataset features classes = record {
  dataset_id = dataset;
  row_count = 700;
  feature_count = features;
  numeric_feature_count = features;
  categorical_feature_count = 0;
  class_count = classes;
  class_distribution = (0, 400) ∷ (1, 300) ∷ [];
  missing_cells = 0;
  duplicate_group_count = 0;
  coverage_tags = "small" ∷ (if leb classes 2 then "binary" else "multiclass") ∷ [];
  source_artifacts_valid = true;
  validated_split_seeds = frozen_seeds;
  cross_partition_group_count = 0;
  v00_compatible_model_ids = model_order;
}

abbrev others_of : List Candidate
others_of =
    candidate_of 3 36 2
    ∷ candidate_of 23 9 3
    ∷ candidate_of 29 15 2
    ∷ candidate_of 31 20 2
    ∷ candidate_of 36 19 7
    ∷ candidate_of 37 8 2
    ∷ candidate_of 38 29 2
    ∷ []

abbrev sample_candidates : List Candidate
sample_candidates = candidate_of 1464 4 2 ∷ candidate_of 44 4 2 ∷ others_of

abbrev shuffled_candidates : List Candidate
shuffled_candidates = candidate_of 44 4 2 ∷ candidate_of 1464 4 2 ∷ others_of

-- Data set 44 has the signature of the anchor, so that it is the one that is left out.
abbrev chosen_ids : List ℕ
chosen_ids = 3 ∷ 23 ∷ 29 ∷ 31 ∷ 36 ∷ 37 ∷ 38 ∷ 1464 ∷ []

select_runs : select_candidate_ids fixed_point sample_policy sample_candidates 1464 ≡ ok chosen_ids
unfolding select_candidate_ids sort_candidates insert_candidate all_different member is_eligible
    best_subset combinations search_subsets score_subset profiles duplicate_profile is_balanced
    largest family_of covered_count distinct_count counter_from count_value repeats improves beats
    precedes contains
select_runs = refl

select_candidate_ids-IsBestSubset_example :
    (anchor : Candidate) × (best : Scored) × (find_anchor 1464 (sort_candidates sample_candidates)
      ≡ some anchor)
    × (best.candidate_ids ≡ chosen_ids)
    × IsBestSubset fixed_point sample_policy anchor
        (without_anchor 1464 (sort_candidates sample_candidates))
        best
select_candidate_ids-IsBestSubset_example =
    select_candidate_ids-IsBestSubset fixed_point sample_policy sample_candidates 1464 chosen_ids
      select_runs

select_candidate_ids-IsShuffle_example :
    select_candidate_ids fixed_point sample_policy sample_candidates 1464
    ≡ select_candidate_ids fixed_point sample_policy shuffled_candidates 1464
select_candidate_ids-IsShuffle_example =
    select_candidate_ids-IsShuffle fixed_point sample_policy sample_candidates shuffled_candidates
      1464 exchange
