-- ===== src/Tests/EvidenceRuns.antt =====
-- Evidence that the contracts accept.
use schema_guard.Base.{
  same_names, ◌≡◌, refl, ℕ, ok, arith, String, true, false, none, some, [], ◌∷◌, map, All,
}
use schema_guard.Base.Dict.{lookup, contains}
use schema_guard.Hashing.{sha256_canonical_json}
use schema_guard.Cache.Identity.{is_sha256}
use schema_guard.Cache.FaultPolicy.{
  FaultExpectation, fault_policy, canonical_fault_names, FaultInjectionRecord,
  fault_evidence_sha256,
}
use schema_guard.Cache.Faults.{
  as_expected, matches_expectation, fault_record_is_valid, FaultInjectionEvidence,
  fault_evidence_is_valid,
}
use schema_guard.Cache.Faults.Accepted.{IsFulfilled, fault_evidence_is_valid-IsFulfilled}
use schema_guard.Cache.Probes.{
  CacheSchedulerConfig, config_is_valid, root_is_valid, with_slashes, has_parent,
  ProbeResourceSummary, probe_resource_is_valid, ProbeRunSummary, cold, resume, mode_is_valid,
  probe_run_is_valid, SchedulerProbeEvidence, all_unique, probe_evidence_is_valid,
}
use schema_guard.Cache.Probes.Evidence.{ComputedAll, ReusedAll, probe_evidence_is_valid-ReusedAll}
use schema_guard.Runner.Record.{SchedulerState}
use schema_guard.Runner.State.{holds, recover_abandoned}
use schema_guard.Runner.State.Configured.{recover-configured}
use schema_guard.Tests.Samples.{sample_digest, sample_id, running_record, open_attempt, state_of}
use schema_guard.Tests.StateRuns.{running-IsSound, found_in}

abbrev fulfilled : String × FaultExpectation → FaultInjectionRecord
fulfilled (name, x) = record {
  fault_name = name;
  injection_point = x.injection_point;
  expected_failure_category = x.expected_failure_category;
  observed_failure_category = x.expected_failure_category;
  expected_artifact_accepted = x.expected_artifact_accepted;
  artifact_accepted = x.expected_artifact_accepted;
  expected_resume_behavior = x.expected_resume_behavior;
  lock_released = true;
  resume_behavior = x.expected_resume_behavior;
  evidence_sha256 = sample_id;
  status = "PASS";
}

abbrev sample_evidence : FaultInjectionEvidence
sample_evidence = record {
  schema_version = 1;
  stage = "cache_scheduler_faults";
  source_implementation_commit = "0123456789abcdef0123456789abcdef01234567";
  records = map fulfilled fault_policy;
  expected_fault_count = 30;
  offline_network_attempt_count = 1;
}

evidence_lem : fault_evidence_is_valid sample_digest sample_evidence ≡ true
unfolding fault_evidence_is_valid fault_record_is_valid matches_expectation as_expected same_names
    fault_policy canonical_fault_names lookup is_sha256 fault_evidence_sha256 sha256_canonical_json
evidence_lem = refl

fault_evidence_is_valid-IsFulfilled_example :
    (map (λ r. r.fault_name) sample_evidence.records ≡ canonical_fault_names)
    × All (IsFulfilled sample_digest) sample_evidence.records
fault_evidence_is_valid-IsFulfilled_example =
    fault_evidence_is_valid-IsFulfilled sample_digest sample_evidence evidence_lem

abbrev sample_config : CacheSchedulerConfig
sample_config = record {
  schema_version = 1;
  cpu_workers = 2;
  cpu_threads_per_worker = 2;
  gpu_workers = 1;
  ram_soft_limit_mib = 24576;
  ram_hard_limit_mib = 28672;
  vram_soft_limit_mib = 3600;
  gpu_headroom_mib = 512;
  lock_timeout_seconds = 120_000_000;
  heartbeat_interval_seconds = 60;
  abandoned_lease_seconds = 200;
  cache_root = "artifacts/cache";
  state_root = "artifacts/state";
}

config_lem : config_is_valid sample_config ≡ true
unfolding config_is_valid root_is_valid with_slashes has_parent
config_lem = refl

recover-configured_example :
    (n : ℕ) × (t : SchedulerState) × (recover_abandoned sample_digest 80 200
        (λ p. false)
        (holds (state_of running_record))
      ≡ (ok n, holds t))
    × (lookup sample_id t.tasks ≡ some running_record)
recover-configured_example =
    recover-configured sample_digest sample_config 80 (λ p. false) (state_of running_record)
      sample_id running_record open_attempt config_lem running-IsSound (found_in running_record)
      refl (omega arith)

abbrev observed : ProbeResourceSummary
observed = record {
  wall_seconds = 5;
  cpu_seconds = some 3;
  peak_worker_rss_mib = some 100;
  peak_process_tree_rss_mib = some 120;
  telemetry_complete = true;
  hard_limit_passed = true;
  cleanup_passed = true;
  failure_category = none;
}

abbrev cold_summary : ProbeRunSummary
cold_summary = record {
  mode = cold;
  planned = 1;
  executed = 1;
  validated_cache_hits = 0;
  recovered_abandoned = 0;
  failed = 0;
  blocked = 0;
  retried = 0;
  cancelled = 0;
  max_cpu_concurrency = 1;
  max_gpu_concurrency = 0;
  offline_network_attempt_count = 0;
  resources = observed ∷ [];
}

abbrev resume_summary : ProbeRunSummary
resume_summary = record cold_summary {
  mode = resume;
  executed = 0;
  validated_cache_hits = 1;
  max_cpu_concurrency = 0;
  resources = [];
}

abbrev probe_evidence : SchedulerProbeEvidence
probe_evidence = record {
  schema_version = 1;
  stage = "cache_scheduler_probe";
  source_implementation_commit = "0123456789abcdef0123456789abcdef01234567";
  source_implementation_sha256 = sample_id;
  dependency_lock_sha256 = sample_id;
  configuration_sha256 = sample_id;
  plan_sha256 = sample_id;
  cache_identity_hashes = sample_id ∷ [];
  cold_run = cold_summary;
  resume_run = resume_summary;
  maximum_mocked_gpu_concurrency = 1;
  mocked_gpu_offline_network_attempt_count = 0;
  validated_cache_artifact_count = 1;
  duplicate_validated_artifact_count = 0;
}

probe_lem : probe_evidence_is_valid probe_evidence ≡ true
unfolding probe_evidence_is_valid probe_run_is_valid mode_is_valid probe_resource_is_valid
    all_unique contains is_sha256
probe_lem = refl

probe_evidence_is_valid-ReusedAll_example :
    ComputedAll 1 cold_summary
    × ReusedAll 1 resume_summary
    × (probe_evidence.validated_cache_artifact_count ≡ 1)
probe_evidence_is_valid-ReusedAll_example =
    probe_evidence_is_valid-ReusedAll probe_evidence probe_lem refl refl
