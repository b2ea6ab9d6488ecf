-- ===== src/Split/Candidate.antt =====
-- One choice of a calibration fold and a test fold: `_candidate` of splits/selection.py.
use schema_guard.Base.{
  ℕ, zero, suc, ◌+◌, Bool, false, ◌||◌, if◌then◌else◌, ltb, eqb, Option, none, some, List, [], ◌∷◌,
  map, length, String, Result, ok, ◌>>=◌, found,
}
use schema_guard.Base.Dict.{Dict, lookup, insert}
use schema_guard.Split.Config.{Arithmetic, Double, SplitGenerationConfig}

pub data Partition : Type 0 where
  train calibration test : Partition

-- A dictionary whose keys are the three partitions.
pub record PerPartition {ℓ} (A : Type ℓ) : Type ℓ where
  pub of_train : A
  pub of_calibration : A
  pub of_test : A

module _ {ℓ} {A : Type ℓ} where
  abbrev pub part : Partition → PerPartition A → A
  part train t = t.of_train
  part calibration t = t.of_calibration
  part test t = t.of_test

  abbrev pub set_part : Partition → A → PerPartition A → PerPartition A
  set_part train a t = record t { of_train = a }
  set_part calibration a t = record t { of_calibration = a }
  set_part test a t = record t { of_test = a }

-- Counts by the class code.
abbrev pub Tally : Type 0
Tally = List (ℕ × ℕ)

-- `counts.get(code, 0)`
unfoldable pub tally_get : ℕ → Tally → ℕ
tally_get code [] = 0
tally_get code ((c, n) ∷ t) = if eqb c code then n else tally_get code t

-- `counts[code] = counts.get(code, 0) + 1`
unfoldable pub bump : ℕ → Tally → Tally
bump code [] = (code, 1) ∷ []
bump code ((c, n) ∷ t) = if eqb c code then (c, n + 1) ∷ t else (c, n) ∷ bump code t

-- `fold_to_partition[fold]`
unfoldable pub fold_to_partition : ℕ → ℕ → ℕ → ℕ → Option Partition
fold_to_partition folds calibration_fold test_fold fold =
    if ltb fold folds
    then some (
        if eqb fold calibration_fold
        then calibration
        else if eqb fold test_fold
        then test
        else train)
    else none

-- The partition that the fold of each row gives it.
unfoldable pub label_rows :
    Dict ℕ → (ℕ → Option Partition) → List String → Dict Partition → Result (Dict Partition)
label_rows fold_by_row partition_of [] labels = ok labels
label_rows fold_by_row partition_of (row_id ∷ row_ids) labels =
    found (lookup row_id fold_by_row) >>= (λ fold.
      found (partition_of fold)
      >>= (λ label. label_rows fold_by_row partition_of row_ids (insert row_id label labels)))

pub record Counts : Type 0 where
  pub counts : PerPartition ℕ
  pub class_counts : PerPartition Tally

abbrev pub no_counts : Counts
no_counts = record {
  counts = record { of_train = 0; of_calibration = 0; of_test = 0 };
  class_counts = record { of_train = []; of_calibration = []; of_test = [] };
}

unfoldable pub count_row : Partition → ℕ → Counts → Counts
count_row p code c = record {
  counts = set_part p (part p c.counts + 1) c.counts;
  class_counts = set_part p (bump code (part p c.class_counts)) c.class_counts;
}

unfoldable pub count_rows : Dict Partition → Dict ℕ → List String → Counts → Result Counts
count_rows labels target_by_row [] c = ok c
count_rows labels target_by_row (row_id ∷ row_ids) c = found (lookup row_id labels) >>= (λ p.
    found (lookup row_id target_by_row)
    >>= (λ code. count_rows labels target_by_row row_ids (count_row p code c)))

-- `any(value == 0 for value in counts.values())`
unfoldable pub has_empty_partition : PerPartition ℕ → Bool
has_empty_partition c = eqb c.of_train 0 || eqb c.of_calibration 0 || eqb c.of_test 0

abbrev pub insert_code : ℕ → Tally → Tally
insert_code code [] = (code, 1) ∷ []
insert_code code ((c, n) ∷ t) =
    if ltb code c
    then (code, 1) ∷ (c, n) ∷ t
    else if eqb c code
    then (c, n + 1) ∷ t
    else (c, n) ∷ insert_code code t

-- `value_counts().sort_index()`: the codes of all rows with their counts, in ascending order.
unfoldable pub target_counts : Dict ℕ → Tally
target_counts [] = []
target_counts ((row_id, code) ∷ targets) = insert_code code (target_counts targets)

-- `any(counts.get(code, 0) < required for code in codes)`
unfoldable pub lacks_class : ℕ → Tally → Tally → Bool
lacks_class required [] counts = false
lacks_class required ((code, n) ∷ codes) counts =
    ltb (tally_get code counts) required || lacks_class required codes counts

unfoldable pub violates : ℕ → Tally → PerPartition Tally → Bool
violates required codes c =
    lacks_class required codes c.of_train
    || lacks_class required codes c.of_calibration
    || lacks_class required codes c.of_test

-- A candidate that meets the constraints, with what orders it.
pub record SortKey : Type 0 where
  pub size_score : Double
  pub class_score : Double
  pub train_folds : List ℕ
  pub calibration_fold : ℕ
  pub test_fold : ℕ

pub record Selection : Type 0 where
  pub labels : Dict Partition
  pub partition_counts : PerPartition ℕ
  pub partition_class_counts : PerPartition Tally
  pub size_deviations : PerPartition Double
  pub class_proportion_deviations : PerPartition (List (ℕ × Double))
  pub sort_key : SortKey

pub data Item : Type 0 where
  empty_partition : Item
  hard_constraint_violation : Counts → Item
  valid : Selection → Item

-- `tuple(fold for fold in folds if fold not in {calibration_fold, test_fold})`, from the end.
unfoldable pub train_folds_below : ℕ → ℕ → ℕ → List ℕ → List ℕ
train_folds_below calibration_fold test_fold zero rest = rest
train_folds_below calibration_fold test_fold (suc fold) rest =
    train_folds_below calibration_fold test_fold fold
      (if eqb fold calibration_fold || eqb fold test_fold then rest else fold ∷ rest)

module _ (a : Arithmetic) where
  -- `abs(counts / total_rows - fraction)` of each partition.
  unfoldable pub size_deviation : SplitGenerationConfig → ℕ → PerPartition ℕ → PerPartition Double
  size_deviation config total_rows c = record {
    of_train = a.distance (a.divide c.of_train total_rows) config.train_fraction;
    of_calibration = a.distance (a.divide c.of_calibration total_rows) config.calibration_fraction;
    of_test = a.distance (a.divide c.of_test total_rows) config.test_fraction;
  }

  -- `abs(class_count / count - all_count / total_rows)` of each class of one partition.
  unfoldable pub class_deviation : ℕ → ℕ → Tally → Tally → List (ℕ × Double)
  class_deviation total_rows count classes [] = []
  class_deviation total_rows count classes ((code, n) ∷ codes) =
      (code, a.distance (a.divide (tally_get code classes) count) (a.divide n total_rows))
      ∷ class_deviation total_rows count classes codes

  abbrev sum_values : List (ℕ × Double) → Double
  sum_values ds = a.sum (map (λ d. d.1) ds)

  unfoldable pub selection_of :
      SplitGenerationConfig → Dict Partition → ℕ → Tally → Counts → ℕ → ℕ → Selection
  selection_of config labels total_rows codes c calibration_fold test_fold =
      let sizes = size_deviation config total_rows c.counts in
      let of_part = λ (p : Partition).
        class_deviation total_rows (part p c.counts) (part p c.class_counts) codes in
      record {
        labels = labels;
        partition_counts = c.counts;
        partition_class_counts = c.class_counts;
        size_deviations = sizes;
        class_proportion_deviations = record {
          of_train = of_part train;
          of_calibration = of_part calibration;
          of_test = of_part test;
        };
        sort_key = record {
          size_score = a.sum (sizes.of_train ∷ sizes.of_calibration ∷ sizes.of_test ∷ []);
          class_score = a.sum (
              sum_values (of_part train)
              ∷ sum_values (of_part calibration)
              ∷ sum_values (of_part test)
              ∷ []);
          train_folds = train_folds_below calibration_fold test_fold config.group_folds [];
          calibration_fold = calibration_fold;
          test_fold = test_fold;
        };
      }

  -- The constraints, in their order, then the scores.
  unfoldable pub judge : SplitGenerationConfig → Dict ℕ → ℕ → ℕ → ℕ → Dict Partition → Counts → Item
  judge config target_by_row total_rows calibration_fold test_fold labels c =
      let codes = target_counts target_by_row in
      if has_empty_partition c.counts
      then empty_partition
      else if violates config.minimum_class_count_per_partition codes c.class_counts
      then hard_constraint_violation c
      else valid (selection_of config labels total_rows codes c calibration_fold test_fold)

  unfoldable pub candidate :
      SplitGenerationConfig → Dict ℕ → List String → Dict ℕ → ℕ → ℕ → Result Item
  candidate config fold_by_row row_ids target_by_row calibration_fold test_fold =
      label_rows fold_by_row (fold_to_partition config.group_folds calibration_fold test_fold)
        row_ids []
      >>= (λ labels. count_rows labels target_by_row row_ids no_counts >>= (λ c.
          ok (judge config target_by_row (length row_ids) calibration_fold test_fold labels c)))
