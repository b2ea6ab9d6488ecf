-- ===== src/Split/Config.antt =====
-- The configuration of the splits: SplitGenerationConfig of splits/contracts.py. A float that is
-- not negative is its IEEE bit pattern, whose order is the order of floats; the operations on floats
-- are parameters.
use schema_guard.Base.{ℕ, Bool, true, false, not, ◌&&◌, ◌||◌, ltb, leb, eqb, List, [], ◌∷◌}

abbrev pub Double : Type 0
Double = ℕ

-- Division of counts, the absolute difference, addition, and Python's `sum` of a list.
pub record Arithmetic : Type 0 where
  pub divide : ℕ → ℕ → Double
  pub distance : Double → Double → Double
  pub add : Double → Double → Double
  pub sum : List Double → Double

-- `1.0`
abbrev pub one : Double
one = 0x3ff0_0000_0000_0000

-- `1e-12`
abbrev pub tolerance : Double
tolerance = 0x3d71_9799_812d_ea11

pub record SplitGenerationConfig : Type 0 where
  pub group_folds : ℕ
  pub train_fraction : Double
  pub calibration_fraction : Double
  pub test_fraction : Double
  pub minimum_class_count_per_partition : ℕ
  pub seeds : List ℕ
  pub datasets : List ℕ
  pub max_workers : ℕ

abbrev pub frozen_seeds : List ℕ
frozen_seeds = 1729 ∷ 2718 ∷ 31415 ∷ 57721 ∷ 161803 ∷ []

abbrev pub frozen_datasets : List ℕ
frozen_datasets = 3 ∷ 23 ∷ 29 ∷ 31 ∷ 36 ∷ 37 ∷ 38 ∷ 44 ∷ 46 ∷ 50 ∷ 54 ∷ 1067 ∷ 1464 ∷ 1489 ∷ []

abbrev pub same_numbers : List ℕ → List ℕ → Bool
same_numbers [] [] = true
same_numbers [] (b ∷ bs) = false
same_numbers (a ∷ as_) [] = false
same_numbers (a ∷ as_) (b ∷ bs) = eqb a b && same_numbers as_ bs

abbrev is_fraction : Double → Bool
is_fraction f = ltb 0 f && ltb f one

-- The uniqueness of the seeds and of the data sets follows from their frozen values.
unfoldable pub config_is_valid : Arithmetic → SplitGenerationConfig → Bool
config_is_valid a c =
    let total : Double = a.add (a.add c.train_fraction c.calibration_fraction) c.test_fraction in
    eqb c.group_folds 5
    && is_fraction c.train_fraction
    && is_fraction c.calibration_fraction
    && is_fraction c.test_fraction
    && leb 1 c.minimum_class_count_per_partition
    && (eqb c.max_workers 1 || eqb c.max_workers 2)
    && not (ltb tolerance (a.distance total one))
    && same_numbers c.seeds frozen_seeds
    && same_numbers c.datasets frozen_datasets
