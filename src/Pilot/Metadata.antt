-- ===== src/Pilot/Metadata.antt =====
-- What the selection of data sets reads: the candidate records, `SelectionPolicy` of
-- experiments/pilot_contracts.py, and the profiles of experiments/pilot_planning.py. A candidate is a
-- record, so it has exactly the registered fields.
use schema_guard.Base.{
  ℕ, Bool, true, not, ◌&&◌, if◌then◌else◌, ltb, leb, eqb, List, [], ◌∷◌, map, String, Result, Error,
  ok, err, ◌>>=◌,
}
use schema_guard.Base.Dict.{contains}
use schema_guard.Split.Config.{Double, Arithmetic, one}
use schema_guard.Split.Candidate.{Tally}

pub record Candidate : Type 0 where
  pub dataset_id : ℕ
  pub row_count : ℕ
  pub feature_count : ℕ
  pub numeric_feature_count : ℕ
  pub categorical_feature_count : ℕ
  pub class_count : ℕ
  pub class_distribution : Tally
  pub missing_cells : ℕ
  pub duplicate_group_count : ℕ
  pub coverage_tags : List String
  pub source_artifacts_valid : Bool
  pub validated_split_seeds : List ℕ
  pub cross_partition_group_count : ℕ
  pub v00_compatible_model_ids : List String

pub data ProfileField : Type 0 where
  task_type schema_family size_band balance_band : ProfileField

pub record SelectionPolicy : Type 0 where
  pub max_rows : ℕ
  pub max_features : ℕ
  pub max_classes : ℕ
  pub foundation_max_train_rows : ℕ
  pub balanced_max_class_fraction : Double
  pub categorical_substantial_fraction : Double
  pub small_dataset_max_rows : ℕ
  pub required_coverage : List String
  pub duplicate_profile_fields : List ProfileField

abbrev coverage_names : List String
coverage_names =
    "numeric_only" ∷ "mixed_numeric_categorical" ∷ "substantial_categorical" ∷ "high_dimensional"
    ∷ "high_cardinality_categorical" ∷ "missing_values" ∷ "binary" ∷ "multiclass" ∷ "small"
    ∷ "medium" ∷ "balanced" ∷ "imbalanced" ∷ []

abbrev known_and_unique : List String → Bool
known_and_unique [] = true
known_and_unique (t ∷ ts) = contains t coverage_names && not (contains t ts) && known_and_unique ts

-- 0.5, the bit pattern.
abbrev half : Double
half = 0x3fe0_0000_0000_0000

unfoldable pub policy_is_valid : SelectionPolicy → Bool
policy_is_valid p =
    ltb 0 p.max_rows
    && ltb 0 p.max_features
    && leb 2 p.max_classes
    && ltb 0 p.foundation_max_train_rows
    && ltb half p.balanced_max_class_fraction
    && ltb p.balanced_max_class_fraction one
    && ltb 0 p.categorical_substantial_fraction
    && leb p.categorical_substantial_fraction one
    && ltb 0 p.small_dataset_max_rows
    && known_and_unique p.required_coverage
    && ltb p.small_dataset_max_rows p.max_rows

-- `max(counts.values())` of a dictionary that has a value.
abbrev largest_from : ℕ → Tally → ℕ
largest_from n [] = n
largest_from n ((code, m) ∷ t) = largest_from (if ltb n m then m else n) t

unfoldable pub largest : Tally → Result ℕ
largest [] = err Error.value_error
largest ((code, n) ∷ t) = ok (largest_from n t)

abbrev pub task_of : ℕ → String
task_of classes = if eqb classes 2 then "binary" else "multiclass"

unfoldable pub family_of : Candidate → String
family_of c =
    if eqb c.categorical_feature_count 0
    then "numeric_only"
    else if eqb c.numeric_feature_count 0
    then "categorical_only"
    else "mixed"

abbrev size_of : ℕ → SelectionPolicy → String
size_of rows policy = if leb rows policy.small_dataset_max_rows then "small" else "medium"

module _ (a : Arithmetic) where
  -- `max_class / rows <= policy.balanced_max_class_fraction`
  unfoldable pub is_balanced : Tally → ℕ → SelectionPolicy → Result Bool
  is_balanced classes rows policy =
      largest classes >>= (λ n. ok (leb (a.divide n rows) policy.balanced_max_class_fraction))

  abbrev balance_of : Bool → String
  balance_of balanced = if balanced then "balanced" else "imbalanced"

  abbrev field_value : Candidate → SelectionPolicy → Bool → ProfileField → String
  field_value c policy balanced task_type = task_of c.class_count
  field_value c policy balanced schema_family = family_of c
  field_value c policy balanced size_band = size_of c.row_count policy
  field_value c policy balanced balance_band = balance_of balanced

  unfoldable pub duplicate_profile : Candidate → SelectionPolicy → Result (List String)
  duplicate_profile c policy =
      is_balanced c.class_distribution c.row_count policy
      >>= (λ balanced. ok (map (field_value c policy balanced) policy.duplicate_profile_fields))
