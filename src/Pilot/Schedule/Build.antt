-- ===== src/Pilot/Schedule/Build.antt =====
-- `build_staged_schedule` of experiments/pilot_planning.py, with the model validators of the stage and
-- of the schedule, from experiments/pilot_contracts.py. `sha256_canonical_json` of a payload with floats is a
-- parameter.
use schema_guard.Hashing.{sort_texts}
use Prim.Native.String.{◌++◌ as ◌+++◌}
use schema_guard.Base.{
  require, same_bool, ℕ, ◌*◌, Bool, true, false, ◌&&◌, if◌then◌else◌, ltb, leb, eqb, all, List, [],
  ◌∷◌, map, length, String, ◌==◌, Result, Error, ok, err, ◌>>=◌, ◌>>◌, found,
}
use schema_guard.Base.Dict.{Dict, contains, lookup, keys}
use schema_guard.Base.Counting.{member}
use schema_guard.Base.Decimal.{decimal}
use schema_guard.Cache.Identity.{is_sha256}
use schema_guard.Split.Config.{Double, same_numbers}
use schema_guard.Pilot.Select.{model_order}
use schema_guard.Pilot.Condition.{PlannedCondition, cpu, cuda}
use schema_guard.Pilot.Inventory.{
  PilotConditionInventory, condition_ids, count_where, runs_on, is_ascending, texts_differ,
}
use schema_guard.Pilot.Schedule.{
  Floats, Work, RuntimeEstimate, ResourcePolicy, PilotProtocolArtifact, PilotScheduleStage,
  SchedulePayload, PilotStagedSchedule, each_of, Buckets, fill, empty_buckets, pairs, concat, sum,
  count_of, counts_of,
}

-- The least bit pattern that is no finite float.
abbrev infinity : Double
infinity = 0x7ff0_0000_0000_0000

-- `1e-9`
abbrev tolerance : Double
tolerance = 0x3e11_2e0b_e826_d695

abbrev is_finite : Double → Bool
is_finite d = ltb d infinity

abbrev cpu_models : List String
cpu_models = "LR-1.9" ∷ "CAT-1.2" ∷ "XGB-3.4" ∷ []

abbrev cuda_models : List String
cuda_models = "TPFN3-8.5" ∷ "TICL2-2.2" ∷ []

abbrev same_members : List String → List String → Bool
same_members ss ts = all (λ s. contains s ts) ss && all (λ t. contains t ss) ts

-- `build_staged_schedule` writes the identifier of a stage in the pattern that the contract asks for.
unfoldable pub stage_is_valid : PilotScheduleStage → Bool
stage_is_valid s =
    ltb s.dataset_ids.0 s.dataset_ids.1
    && leb 1 (length s.condition_ids)
    && all is_sha256 s.condition_ids
    && is_finite s.estimated_cpu_seconds
    && is_finite s.estimated_cuda_seconds
    && is_finite s.conservative_wall_seconds
    && same_members (keys s.model_condition_counts) model_order
    && texts_differ s.condition_ids
    && eqb (sum (map (λ e. e.1) s.model_condition_counts)) (length s.condition_ids)
    && eqb (counts_of cpu_models s) s.cpu_condition_count
    && eqb (counts_of cuda_models s) s.cuda_condition_count

abbrev pub staged_ids : List PilotScheduleStage → List String
staged_ids stages = concat (map (λ s. s.condition_ids) stages)

-- A model is built from fields that pass its validators.
abbrev pub validated {ℓ} : {A : Type ℓ} → Bool → A → Result A
validated true a = ok a
validated false a = err Error.validation_error

abbrev larger : Double → Double → Double
larger a b = if ltb a b then b else a

module _ (f : Floats) (policy : ResourcePolicy) (estimate : RuntimeEstimate) where
  -- The stage of two data sets with their records, their work and their storage.
  unfoldable pub stage_of : ℕ → ℕ → List PlannedCondition → List Work → List ℕ → PilotScheduleStage
  stage_of a b cs work storage =
      let cpu_seconds =
        f.multiply (f.total (map (λ w. w.cpu_work) work)) policy.estimate_safety_factor in
      let cuda_seconds =
        f.multiply (f.total (map (λ w. w.cuda_work) work)) policy.estimate_safety_factor in
      record {
        stage_id = "dataset_group_" +++ decimal a +++ "_" +++ decimal b;
        dataset_ids = (a, b);
        condition_ids = sort_texts (condition_ids cs);
        model_condition_counts = map (λ m. (m, count_where (λ c. c.model_id == m) cs)) model_order;
        cpu_condition_count = count_where (runs_on cpu) cs;
        cuda_condition_count = count_where (runs_on cuda) cs;
        estimated_cpu_seconds = cpu_seconds;
        estimated_cuda_seconds = cuda_seconds;
        conservative_wall_seconds =
            f.plus (larger (f.over cpu_seconds policy.cpu_workers) cuda_seconds)
              policy.coordination_seconds;
        estimated_prediction_storage_bytes = sum storage;
        estimated_cache_storage_bytes = sum storage * 2;
      }

  unfoldable pub build_stage : Buckets → List ℕ → Result PilotScheduleStage
  build_stage buckets (a ∷ b ∷ []) =
      let group = a ∷ b ∷ [] in
      each_of buckets group >>= (λ records.
        each_of estimate.estimated_work_seconds_by_dataset group >>= (λ work.
          each_of estimate.estimated_prediction_storage_by_dataset_bytes group >>= (λ storage.
            let stage = stage_of a b (concat records) work storage in
            validated (stage_is_valid stage) stage)))
  build_stage buckets _ = err Error.value_error

  -- `for dataset_group in stage_groups`
  unfoldable pub build_stages : Buckets → List (List ℕ) → Result (List PilotScheduleStage)
  build_stages buckets [] = ok []
  build_stages buckets (g ∷ gs) =
      build_stage buckets g >>= (λ s. build_stages buckets gs >>= (λ ss. ok (s ∷ ss)))

-- `any(sum(...) != inventory.counts_by_model[model_id] for model_id in MODEL_ORDER)`, negated.
unfoldable pub models_agree : List PilotScheduleStage → Dict ℕ → List String → Result Bool
models_agree stages counts [] = ok true
models_agree stages counts (m ∷ ms) = found (lookup m counts) >>= (λ n.
    if eqb (sum (map (count_of m) stages)) n then models_agree stages counts ms else ok false)

-- `sorted(...)` of numbers.
unfoldable pub insert_number : ℕ → List ℕ → List ℕ
insert_number n [] = n ∷ []
insert_number n (m ∷ ms) = if leb n m then n ∷ m ∷ ms else m ∷ insert_number n ms

unfoldable pub sort_numbers : List ℕ → List ℕ
sort_numbers [] = []
sort_numbers (n ∷ ns) = insert_number n (sort_numbers ns)

abbrev same_groups : List (ℕ × ℕ) → List (List ℕ) → Bool
same_groups [] [] = true
same_groups ((a, b) ∷ gs) (h ∷ hs) = same_numbers (a ∷ b ∷ []) h && same_groups gs hs
same_groups _ _ = false

module _ (f : Floats) (digest : SchedulePayload → String) where
  abbrev within_limit : ℕ → List PilotScheduleStage → Bool
  within_limit limit stages = all (λ s. f.at_most s.conservative_wall_seconds limit) stages

  unfoldable pub schedule_is_valid : PilotStagedSchedule → Bool
  schedule_is_valid s =
      let p = s.payload in
      let ids = staged_ids p.stages in
      let groups = map (λ st. st.dataset_ids) p.stages in
      is_ascending p.dataset_ids
      && eqb (length p.dataset_ids) 8
      && leb 1 (length p.stages)
      && leb 1 p.total_condition_count
      && ltb 0 p.hard_wall_limit_seconds
      && is_finite p.total_estimated_wall_seconds
      && all stage_is_valid p.stages
      && same_groups groups (pairs p.dataset_ids)
      && eqb (length ids) p.total_condition_count
      && texts_differ ids
      && eqb (sum (map (λ st. st.estimated_prediction_storage_bytes) p.stages))
          p.estimated_prediction_storage_bytes
      && eqb (sum (map (λ st. st.estimated_cache_storage_bytes) p.stages))
          p.estimated_cache_storage_bytes
      && leb
          (f.distance (f.total (map (λ st. st.conservative_wall_seconds) p.stages))
            p.total_estimated_wall_seconds)
          tolerance
      && same_bool p.all_stages_within_hard_wall_limit
          (within_limit p.hard_wall_limit_seconds p.stages)
      && is_sha256 s.schedule_sha256
      && is_sha256 p.protocol_sha256
      && is_sha256 p.inventory_sha256
      && s.schedule_sha256 == digest p

  abbrev pub payload_of :
      PilotProtocolArtifact
      → PilotConditionInventory
      → List ℕ
      → List PilotScheduleStage
      → SchedulePayload
  payload_of protocol inventory dataset_ids stages = record {
    protocol_sha256 = protocol.protocol_sha256;
    inventory_sha256 = inventory.inventory_sha256;
    dataset_ids = dataset_ids;
    stages = stages;
    total_condition_count = inventory.actual_condition_count;
    not_applicable_view_count = inventory.not_applicable_view_count;
    total_estimated_wall_seconds = f.total (map (λ st. st.conservative_wall_seconds) stages);
    hard_wall_limit_seconds = protocol.resource_policy.hard_wall_seconds;
    all_stages_within_hard_wall_limit =
        within_limit protocol.resource_policy.hard_wall_seconds stages;
    estimated_prediction_storage_bytes =
        sum (map (λ st. st.estimated_prediction_storage_bytes) stages);
    estimated_cache_storage_bytes = sum (map (λ st. st.estimated_cache_storage_bytes) stages);
  }

  abbrev pub schedule_of : SchedulePayload → PilotStagedSchedule
  schedule_of p = record { schedule_sha256 = digest p; payload = p }

  abbrev has_keys {ℓ} : {A : Type ℓ} → List (ℕ × A) → List ℕ → Bool
  has_keys d ns =
      let ks = map (λ e. e.0) d in all (λ k. member eqb k ns) ks && all (λ n. member eqb n ks) ns

  unfoldable pub build_staged_schedule :
      PilotProtocolArtifact → PilotConditionInventory → Result PilotStagedSchedule
  build_staged_schedule protocol inventory =
      let dataset_ids = sort_numbers protocol.selected_datasets in
      let estimate = protocol.runtime_estimate in
      require (inventory.protocol_sha256 == protocol.protocol_sha256)
      >> require (same_numbers inventory.selected_dataset_ids dataset_ids)
      >> require (has_keys estimate.estimated_work_seconds_by_dataset dataset_ids)
      >> (fill inventory.records (empty_buckets dataset_ids) >>= (λ buckets.
          build_stages f protocol.resource_policy estimate buckets (pairs dataset_ids)
          >>= (λ stages.
              require (
                texts_differ (staged_ids stages)
                && same_members (staged_ids stages) (condition_ids inventory.records))
              >> (models_agree stages inventory.counts_by_model model_order >>= (λ agree.
                  require agree
                  >> (let schedule =
                        schedule_of (payload_of protocol inventory dataset_ids stages) in
                      validated (schedule_is_valid schedule) schedule))))))
