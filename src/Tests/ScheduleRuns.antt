-- ===== src/Tests/ScheduleRuns.antt =====
-- The staged schedule of eight conditions on eight data sets, and the tests of paths and conditions.
use schema_guard.Base.{
  ℕ, ◌+◌, ◌-◌, ◌*◌, ◌/◌, true, false, if◌then◌else◌, leb, none, List, [], ◌∷◌, map, String, ◌≡◌,
  refl, ok, All, is_hex_text,
}
use schema_guard.Base.Dict.{Dict, contains, lookup}
use schema_guard.Base.Counting.{member}
use schema_guard.Base.Decimal.{decimal}
use schema_guard.Hashing.{
  sort_texts, insert_text, Digest, text_le, canonicalize, sha256_canonical_json,
}
use schema_guard.Pilot.Condition.Identity.{condition_id_determines}
use schema_guard.Cache.Identity.{is_sha256}
use schema_guard.Pilot.RelativePath.{components_from, is_plain, has_drive, is_relative_path}
use schema_guard.Pilot.Condition.{
  components_are_valid, condition_is_valid, canonical_identity_hash, components_json, Device, cpu,
  cuda, ConditionIdentityComponents, PlannedCondition,
}
use schema_guard.Pilot.Inventory.{
  PilotConditionInventory, condition_ids, count_where, is_ascending, texts_differ,
}
use schema_guard.Pilot.Schedule.{
  Floats, PilotProtocolArtifact, PilotScheduleStage, SchedulePayload, PilotStagedSchedule, get_at,
  each_of, append_at, fill, pairs,
}
use schema_guard.Pilot.Schedule.Build.{
  stage_is_valid, staged_ids, stage_of, build_stage, build_stages, models_agree, insert_number,
  sort_numbers, schedule_is_valid, payload_of, schedule_of, build_staged_schedule,
}
use schema_guard.Pilot.Schedule.Occurrences.{occurrences}
use schema_guard.Pilot.Schedule.Preserved.{IsStageOf, build_staged_schedule_preserves}

relative_runs : is_relative_path "configs/pilot.yaml" ≡ true
unfolding is_relative_path components_from is_plain has_drive member
relative_runs = refl

parent_runs : is_relative_path "configs/../secret" ≡ false
unfolding is_relative_path components_from is_plain has_drive member
parent_runs = refl

absolute_runs : is_relative_path "/etc/passwd" ≡ false
unfolding is_relative_path components_from is_plain has_drive member
absolute_runs = refl

drive_runs : is_relative_path "C:/data" ≡ false
unfolding is_relative_path components_from is_plain has_drive member
drive_runs = refl

dot_runs : is_relative_path "." ≡ true
unfolding is_relative_path components_from is_plain has_drive member
dot_runs = refl

abbrev pub sha : String
sha = "cccccccccccccccccccccccccccccccccccccccccccccccccccccccccccccccc"

abbrev identity_of : ℕ → String → Device → ConditionIdentityComponents
identity_of dataset model device = record {
  protocol_version = "schema_guard_representation_sensitivity_v1";
  dataset_id = dataset;
  seed = 1729;
  view_id = "V00";
  model_id = model;
  package_name = "package";
  package_version = "1";
  checkpoint_identifier = none;
  checkpoint_sha256 = none;
  device_policy = device;
  pilot_protocol_sha256 = sha;
  raw_source_sha256 = sha;
  processed_feature_sha256 = sha;
  target_artifact_sha256 = sha;
  split_assignment_sha256 = sha;
  split_logical_sha256 = sha;
  transformation_config_sha256 = sha;
  transformation_implementation_sha256 = sha;
  certificate_identity_sha256 = sha;
  model_config_sha256 = sha;
  complete_parameters_sha256 = sha;
  preprocessing_sha256 = sha;
  precision_policy_sha256 = sha;
  batch_policy_sha256 = sha;
  dependency_lock_sha256 = sha;
  source_implementation_sha256 = sha;
  metric_policy_sha256 = sha;
  numerical_tolerance_policy_sha256 = sha;
}

abbrev pub condition_of : String → ℕ → String → Device → PlannedCondition
condition_of id dataset model device = record {
  condition_id = id;
  identity = identity_of dataset model device;
  dataset_id = dataset;
  seed = 1729;
  view_id = "V00";
  model_id = model;
  device = device;
}

abbrev sample_records : List PlannedCondition
sample_records =
    condition_of "000000000000000000000000000000000000000000000000000000000000ab05" 37 "LR-1.9" cpu
    ∷ condition_of "000000000000000000000000000000000000000000000000000000000000ab00" 3 "LR-1.9" cpu
    ∷ condition_of "000000000000000000000000000000000000000000000000000000000000ab03" 31 "TPFN3-8.5"
        cuda
    ∷ condition_of "000000000000000000000000000000000000000000000000000000000000ab07" 1464 "XGB-3.4"
        cpu
    ∷ condition_of "000000000000000000000000000000000000000000000000000000000000ab01" 23 "CAT-1.2"
        cpu
    ∷ condition_of "000000000000000000000000000000000000000000000000000000000000ab02" 29 "XGB-3.4"
        cpu
    ∷ condition_of "000000000000000000000000000000000000000000000000000000000000ab06" 38 "TPFN3-8.5"
        cuda
    ∷ condition_of "000000000000000000000000000000000000000000000000000000000000ab04" 36 "TICL2-2.2"
        cuda
    ∷ []

abbrev sample_counts : Dict ℕ
sample_counts =
    ("LR-1.9", 2) ∷ ("CAT-1.2", 1) ∷ ("XGB-3.4", 2) ∷ ("TPFN3-8.5", 2) ∷ ("TICL2-2.2", 1) ∷ []

abbrev sample_inventory : PilotConditionInventory
sample_inventory = record {
  protocol_sha256 = sha;
  records = sample_records;
  not_applicable_views = [];
  selected_dataset_ids = 3 ∷ 23 ∷ 29 ∷ 31 ∷ 36 ∷ 37 ∷ 38 ∷ 1464 ∷ [];
  selected_seeds = 1729 ∷ 2718 ∷ 31415 ∷ [];
  actual_view_tuple_count = 264;
  applicable_view_tuple_count = 8;
  not_applicable_view_count = 256;
  actual_condition_count = 8;
  cpu_condition_count = 5;
  cuda_condition_count = 3;
  counts_by_dataset = [];
  counts_by_seed = [];
  counts_by_view = [];
  counts_by_model = sample_counts;
  source_hashes = ("configs/pilot.yaml", sha) ∷ [];
  inventory_sha256 = sha;
}

abbrev sample_protocol : PilotProtocolArtifact
sample_protocol = record {
  protocol_sha256 = sha;
  selected_datasets = 1464 ∷ 38 ∷ 37 ∷ 36 ∷ 31 ∷ 29 ∷ 23 ∷ 3 ∷ [];
  runtime_estimate = record {
    estimated_work_seconds_by_dataset =
        map (λ n. (n, record { cpu_work = 10; cuda_work = 30 }))
          (3 ∷ 23 ∷ 29 ∷ 31 ∷ 36 ∷ 37 ∷ 38 ∷ 1464 ∷ []);
    estimated_prediction_storage_by_dataset_bytes =
        map (λ n. (n, 100)) (3 ∷ 23 ∷ 29 ∷ 31 ∷ 36 ∷ 37 ∷ 38 ∷ 1464 ∷ []);
  };
  resource_policy = record {
    cpu_workers = 2;
    hard_wall_seconds = 1000;
    estimate_safety_factor = 2;
    coordination_seconds = 5;
  };
}

-- Whole numbers in place of floats.
abbrev sample_floats : Floats
sample_floats = record {
  total = total;
  multiply = ◌*◌;
  over = ◌/◌;
  plus = ◌+◌;
  distance = λ a b. if leb a b then b - a else a - b;
  at_most = leb;
}
  where
    total : List ℕ → ℕ
    total [] = 0
    total (n ∷ ns) = n + total ns

abbrev sample_digest : SchedulePayload → String
sample_digest p = "dddddddddddddddddddddddddddddddddddddddddddddddddddddddddddddddd"

abbrev sample_stage : ℕ → ℕ → String → List String → Dict ℕ → ℕ → ℕ → PilotScheduleStage
sample_stage a b name ids counts on_cpu on_cuda = record {
  stage_id = name;
  dataset_ids = (a, b);
  condition_ids = ids;
  model_condition_counts = counts;
  cpu_condition_count = on_cpu;
  cuda_condition_count = on_cuda;
  estimated_cpu_seconds = 40;
  estimated_cuda_seconds = 120;
  conservative_wall_seconds = 125;
  estimated_prediction_storage_bytes = 200;
  estimated_cache_storage_bytes = 400;
}

abbrev sample_stages : List PilotScheduleStage
sample_stages =
    sample_stage 3 23 "dataset_group_3_23"
      ("000000000000000000000000000000000000000000000000000000000000ab00"
        ∷ "000000000000000000000000000000000000000000000000000000000000ab01" ∷ [])
      (("LR-1.9", 1) ∷ ("CAT-1.2", 1) ∷ ("XGB-3.4", 0) ∷ ("TPFN3-8.5", 0) ∷ ("TICL2-2.2", 0) ∷ []) 2
      0
    ∷ sample_stage 29 31 "dataset_group_29_31"
        ("000000000000000000000000000000000000000000000000000000000000ab02"
          ∷ "000000000000000000000000000000000000000000000000000000000000ab03" ∷ [])
        (("LR-1.9", 0) ∷ ("CAT-1.2", 0) ∷ ("XGB-3.4", 1) ∷ ("TPFN3-8.5", 1) ∷ ("TICL2-2.2", 0) ∷ [])
        1 1
    ∷ sample_stage 36 37 "dataset_group_36_37"
        ("000000000000000000000000000000000000000000000000000000000000ab04"
          ∷ "000000000000000000000000000000000000000000000000000000000000ab05" ∷ [])
        (("LR-1.9", 1) ∷ ("CAT-1.2", 0) ∷ ("XGB-3.4", 0) ∷ ("TPFN3-8.5", 0) ∷ ("TICL2-2.2", 1) ∷ [])
        1 1
    ∷ sample_stage 38 1464 "dataset_group_38_1464"
        ("000000000000000000000000000000000000000000000000000000000000ab06"
          ∷ "000000000000000000000000000000000000000000000000000000000000ab07" ∷ [])
        (("LR-1.9", 0) ∷ ("CAT-1.2", 0) ∷ ("XGB-3.4", 1) ∷ ("TPFN3-8.5", 1) ∷ ("TICL2-2.2", 0) ∷ [])
        1 1
    ∷ []

abbrev sample_schedule : PilotStagedSchedule
sample_schedule = schedule_of sample_floats sample_digest (
    payload_of sample_floats sample_digest sample_protocol sample_inventory
      (3 ∷ 23 ∷ 29 ∷ 31 ∷ 36 ∷ 37 ∷ 38 ∷ 1464 ∷ []) sample_stages)

schedule_runs :
    build_staged_schedule sample_floats sample_digest sample_protocol sample_inventory
    ≡ ok sample_schedule
unfolding build_staged_schedule sort_numbers insert_number fill append_at each_of get_at pairs
    build_stages build_stage stage_of sort_texts insert_text text_le count_where stage_is_valid
    is_hex_text texts_differ contains lookup models_agree schedule_is_valid is_ascending member
    decimal is_sha256
schedule_runs = refl

build_staged_schedule_preserves_example :
    ((s : String)
      → occurrences s (staged_ids sample_schedule.payload.stages)
        ≡ occurrences s (condition_ids sample_records))
    × All (IsStageOf sample_records) sample_schedule.payload.stages
build_staged_schedule_preserves_example =
    build_staged_schedule_preserves sample_floats sample_digest sample_protocol sample_inventory
      sample_schedule schedule_runs

abbrev constant_digest : Digest
constant_digest v = sha

abbrev certified : PlannedCondition
certified = condition_of sha 3 "LR-1.9" cpu

certified_runs : condition_is_valid constant_digest certified ≡ true
unfolding condition_is_valid components_are_valid is_sha256 is_hex_text contains
    canonical_identity_hash sha256_canonical_json canonicalize components_json
certified_runs = refl

-- A condition and one that is put together from the same parts.
condition_id_determines_example : certified ≡ condition_of sha 3 "LR-1.9" cpu
condition_id_determines_example =
    condition_id_determines constant_digest certified (condition_of sha 3 "LR-1.9" cpu)
      certified_runs certified_runs (λ e. refl) refl
