-- ===== src/Pilot/Schedule.antt =====
-- The staged schedule: PilotScheduleStage and PilotStagedSchedule of experiments/pilot_contracts.py,
-- and the dictionaries of `build_staged_schedule` of experiments/pilot_planning.py.
pub mod Build
pub mod Stages
pub mod Occurrences
pub mod Preserved
use Prim.Native.String.{◌++◌ as ◌+++◌}
use schema_guard.Base.{
  ℕ, zero, ◌+◌, ◌*◌, Bool, true, false, not, ◌&&◌, if◌then◌else◌, ltb, leb, eqb, all, Option, none,
  some, List, [], ◌∷◌, ◌++◌, map, length, String, ◌==◌, Result, Error, ok, err, ◌>>=◌, ◌>>◌, found,
}
use schema_guard.Base.Dict.{Dict, contains, lookup, keys}
use schema_guard.Base.Counting.{member}
use schema_guard.Base.Decimal.{decimal}
use schema_guard.Hashing.{text_le}
use schema_guard.Cache.Identity.{is_sha256}
use schema_guard.Split.Config.{Double, same_numbers}
use schema_guard.Pilot.Select.{model_order}
use schema_guard.Pilot.Condition.{PlannedCondition, Device, cpu, cuda}
use schema_guard.Pilot.Inventory.{
  PilotConditionInventory, condition_ids, count_where, runs_on, is_ascending, texts_differ,
}

-- The arithmetic of floats that are not negative: `sum`, `*`, `/` and `+` with an integer, the
-- absolute difference, and `<=` with an integer.
pub record Floats : Type 0 where
  pub total : List Double → Double
  pub multiply : Double → Double → Double
  pub over : Double → ℕ → Double
  pub plus : Double → ℕ → Double
  pub distance : Double → Double → Double
  pub at_most : Double → ℕ → Bool

pub record Work : Type 0 where
  pub cpu_work : Double
  pub cuda_work : Double

-- The fields of RuntimeEstimate that the schedule reads.
pub record RuntimeEstimate : Type 0 where
  pub estimated_work_seconds_by_dataset : List (ℕ × Work)
  pub estimated_prediction_storage_by_dataset_bytes : List (ℕ × ℕ)

-- The fields of ResourcePolicy that the schedule reads. A stage always has two data sets.
pub record ResourcePolicy : Type 0 where
  pub cpu_workers : ℕ
  pub hard_wall_seconds : ℕ
  pub estimate_safety_factor : Double
  pub coordination_seconds : ℕ

-- The fields of PilotProtocolArtifact that the schedule reads.
pub record PilotProtocolArtifact : Type 0 where
  pub protocol_sha256 : String
  pub selected_datasets : List ℕ
  pub runtime_estimate : RuntimeEstimate
  pub resource_policy : ResourcePolicy

pub record PilotScheduleStage : Type 0 where
  pub stage_id : String
  pub dataset_ids : ℕ × ℕ
  pub condition_ids : List String
  pub model_condition_counts : Dict ℕ
  pub cpu_condition_count : ℕ
  pub cuda_condition_count : ℕ
  pub estimated_cpu_seconds : Double
  pub estimated_cuda_seconds : Double
  pub conservative_wall_seconds : Double
  pub estimated_prediction_storage_bytes : ℕ
  pub estimated_cache_storage_bytes : ℕ

-- The schedule without its digest and the fields that have one allowed value.
pub record SchedulePayload : Type 0 where
  pub protocol_sha256 : String
  pub inventory_sha256 : String
  pub dataset_ids : List ℕ
  pub stages : List PilotScheduleStage
  pub total_condition_count : ℕ
  pub not_applicable_view_count : ℕ
  pub total_estimated_wall_seconds : Double
  pub hard_wall_limit_seconds : ℕ
  pub all_stages_within_hard_wall_limit : Bool
  pub estimated_prediction_storage_bytes : ℕ
  pub estimated_cache_storage_bytes : ℕ

pub record PilotStagedSchedule : Type 0 where
  pub schedule_sha256 : String
  pub payload : SchedulePayload

-- `d[k]` of a dictionary whose keys are numbers.
unfoldable pub get_at {ℓ} : {A : Type ℓ} → ℕ → List (ℕ × A) → Option A
get_at k [] = none
get_at k ((j, v) ∷ d) = if eqb j k then some v else get_at k d

unfoldable pub each_of {ℓ} : {A : Type ℓ} → List (ℕ × A) → List ℕ → Result (List A)
each_of d [] = ok []
each_of d (k ∷ ks) = found (get_at k d) >>= (λ v. each_of d ks >>= (λ vs. ok (v ∷ vs)))

abbrev pub Buckets : Type 0
Buckets = List (ℕ × List PlannedCondition)

-- `records_by_dataset[condition.dataset_id].append(condition)`
unfoldable pub append_at : ℕ → PlannedCondition → Buckets → Result Buckets
append_at k c [] = err Error.key_error
append_at k c ((j, cs) ∷ d) =
    let rest = append_at k c d >>= (λ e. ok ((j, cs) ∷ e)) in
    if eqb j k then ok ((j, cs ++ (c ∷ [])) ∷ d) else rest

unfoldable pub fill : List PlannedCondition → Buckets → Result Buckets
fill [] d = ok d
fill (c ∷ cs) d = append_at c.dataset_id c d >>= fill cs

abbrev pub empty_buckets : List ℕ → Buckets
empty_buckets = map (λ k. (k, []))

-- `dataset_ids[index : index + 2]` for every second index.
unfoldable pub pairs : List ℕ → List (List ℕ)
pairs [] = []
pairs (a ∷ []) = (a ∷ []) ∷ []
pairs (a ∷ b ∷ rest) = (a ∷ b ∷ []) ∷ pairs rest

abbrev pub concat {ℓ} : {A : Type ℓ} → List (List A) → List A
concat [] = []
concat (xs ∷ xss) = xs ++ concat xss

abbrev pub sum : List ℕ → ℕ
sum [] = 0
sum (n ∷ ns) = n + sum ns

abbrev or_zero : Option ℕ → ℕ
or_zero none = 0
or_zero (some n) = n

-- The count of a model, which the keys of a stage contain.
abbrev pub count_of : String → PilotScheduleStage → ℕ
count_of m s = or_zero (lookup m s.model_condition_counts)

abbrev pub counts_of : List String → PilotScheduleStage → ℕ
counts_of [] s = 0
counts_of (m ∷ ms) s = count_of m s + counts_of ms s
