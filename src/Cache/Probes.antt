-- ===== src/Cache/Probes.antt =====
-- cache/contracts.py: the scheduler's configuration, and the evidence of the scheduler probe.
pub mod Evidence
use schema_guard.Base.{
  ℕ, String, Bool, true, false, not, ◌&&◌, ◌||◌, Option, none, some, List, [], ◌∷◌, ◌==◌, eqb, leb,
  ltb, all, length, ◌+◌, if◌then◌else◌, is_hex_text, is_none, is_some, codes,
}
use schema_guard.Base.Dict.{contains}
use schema_guard.Cache.Identity.{is_sha256}

-- Seconds in millionths, so above 0 and finite by a test and by the type.
pub record CacheSchedulerConfig : Type 0 where
  pub schema_version : ℕ
  pub cpu_workers : ℕ
  pub cpu_threads_per_worker : ℕ
  pub gpu_workers : ℕ
  pub ram_soft_limit_mib : ℕ
  pub ram_hard_limit_mib : ℕ
  pub vram_soft_limit_mib : ℕ
  pub gpu_headroom_mib : ℕ
  pub lock_timeout_seconds : ℕ
  pub heartbeat_interval_seconds : ℕ
  pub abandoned_lease_seconds : ℕ
  pub cache_root : String
  pub state_root : String

-- `value.replace("\\", "/")` on the characters.
unfoldable pub with_slashes : List ℕ → List ℕ
with_slashes [] = []
with_slashes (c ∷ cs) = (if eqb c 92 then b'/' else c) ∷ with_slashes cs

-- `any(part == ".." for part in value.split("/"))`, from the part read so far: how many dots it
-- has, or that it is another name.
unfoldable pub has_parent : Option ℕ → List ℕ → Bool
has_parent (some n) [] = eqb n 2
has_parent none [] = false
has_parent part (c ∷ cs) =
    let rest = has_parent (some 0) cs in
    let dots = has_parent (more part) cs in
    let name = has_parent none cs in
    if eqb c b'/' then is_parent part || rest else if eqb c b'.' then dots else name
  where
    is_parent : Option ℕ → Bool
    is_parent none = false
    is_parent (some n) = eqb n 2

    more : Option ℕ → Option ℕ
    more none = none
    more (some n) = some (n + 1)

abbrev pub starts_absolute : List ℕ → Bool
starts_absolute [] = false
starts_absolute (c ∷ []) = eqb c b'/'
starts_absolute (c ∷ d ∷ cs) = eqb c b'/' || eqb d b':'

-- The test of `validate_policy` on a root directory.
unfoldable pub root_is_valid : String → Bool
root_is_valid value =
    let cs = with_slashes (codes value) in
    ltb 0 (length (codes value)) && not (starts_absolute cs) && not (has_parent (some 0) cs)

-- The field constraints and `validate_policy`.
unfoldable pub config_is_valid : CacheSchedulerConfig → Bool
config_is_valid c =
    eqb c.schema_version 1
    && eqb c.cpu_workers 2
    && eqb c.cpu_threads_per_worker 2
    && eqb c.gpu_workers 1
    && ltb 0 c.ram_soft_limit_mib
    && leb c.ram_soft_limit_mib 24576
    && ltb 0 c.ram_hard_limit_mib
    && leb c.ram_hard_limit_mib 28672
    && ltb 0 c.vram_soft_limit_mib
    && leb c.vram_soft_limit_mib 3600
    && leb 512 c.gpu_headroom_mib
    && ltb 0 c.lock_timeout_seconds
    && ltb 0 c.heartbeat_interval_seconds
    && ltb 0 c.abandoned_lease_seconds
    && ltb c.ram_soft_limit_mib c.ram_hard_limit_mib
    && ltb c.heartbeat_interval_seconds c.abandoned_lease_seconds
    && root_is_valid c.cache_root
    && root_is_valid c.state_root

pub record ProbeResourceSummary : Type 0 where
  pub wall_seconds : ℕ
  pub cpu_seconds : Option ℕ
  pub peak_worker_rss_mib : Option ℕ
  pub peak_process_tree_rss_mib : Option ℕ
  pub telemetry_complete : Bool
  pub hard_limit_passed : Bool
  pub cleanup_passed : Bool
  pub failure_category : Option String

-- `require_successful_resource_evidence`
unfoldable pub probe_resource_is_valid : ProbeResourceSummary → Bool
probe_resource_is_valid r =
    is_some r.peak_worker_rss_mib
    && is_some r.peak_process_tree_rss_mib
    && r.telemetry_complete
    && r.hard_limit_passed
    && r.cleanup_passed
    && is_none r.failure_category

pub data ProbeMode : Type 0 where
  cold resume : ProbeMode

pub record ProbeRunSummary : Type 0 where
  pub mode : ProbeMode
  pub planned : ℕ
  pub executed : ℕ
  pub validated_cache_hits : ℕ
  pub recovered_abandoned : ℕ
  pub failed : ℕ
  pub blocked : ℕ
  pub retried : ℕ
  pub cancelled : ℕ
  pub max_cpu_concurrency : ℕ
  pub max_gpu_concurrency : ℕ
  pub offline_network_attempt_count : ℕ
  pub resources : List ProbeResourceSummary

-- The branches of `validate_probe_counters` on the mode.
unfoldable pub mode_is_valid : ProbeMode → ProbeRunSummary → Bool
mode_is_valid cold r =
    eqb r.executed r.planned
    && eqb r.validated_cache_hits 0
    && eqb (length r.resources) r.executed
    && leb 1 r.max_cpu_concurrency
    && leb r.max_cpu_concurrency 2
mode_is_valid resume r =
    eqb r.executed 0
    && eqb r.validated_cache_hits r.planned
    && eqb (length r.resources) 0
    && eqb r.max_cpu_concurrency 0

-- The field constraints and `validate_probe_counters`.
unfoldable pub probe_run_is_valid : ProbeRunSummary → Bool
probe_run_is_valid r =
    leb r.max_cpu_concurrency 2
    && leb r.max_gpu_concurrency 1
    && all probe_resource_is_valid r.resources
    && eqb r.failed 0
    && eqb r.blocked 0
    && eqb r.retried 0
    && eqb r.cancelled 0
    && eqb r.offline_network_attempt_count 0
    && eqb r.max_gpu_concurrency 0
    && mode_is_valid r.mode r

pub record SchedulerProbeEvidence : Type 0 where
  pub schema_version : ℕ
  pub stage : String
  pub source_implementation_commit : String
  pub source_implementation_sha256 : String
  pub dependency_lock_sha256 : String
  pub configuration_sha256 : String
  pub plan_sha256 : String
  pub cache_identity_hashes : List String
  pub cold_run : ProbeRunSummary
  pub resume_run : ProbeRunSummary
  pub maximum_mocked_gpu_concurrency : ℕ
  pub mocked_gpu_offline_network_attempt_count : ℕ
  pub validated_cache_artifact_count : ℕ
  pub duplicate_validated_artifact_count : ℕ

-- `len(xs) == len(set(xs))`
unfoldable pub all_unique : List String → Bool
all_unique [] = true
all_unique (x ∷ xs) = not (contains x xs) && all_unique xs

-- The types of the fields and `validate_probe_identity_and_results`.
unfoldable pub probe_evidence_is_valid : SchedulerProbeEvidence → Bool
probe_evidence_is_valid e =
    eqb e.schema_version 1
    && e.stage == "cache_scheduler_probe"
    && is_hex_text 40 e.source_implementation_commit
    && is_sha256 e.source_implementation_sha256
    && is_sha256 e.dependency_lock_sha256
    && is_sha256 e.configuration_sha256
    && is_sha256 e.plan_sha256
    && all is_sha256 e.cache_identity_hashes
    && probe_run_is_valid e.cold_run
    && probe_run_is_valid e.resume_run
    && eqb e.maximum_mocked_gpu_concurrency 1
    && eqb e.mocked_gpu_offline_network_attempt_count 0
    && all_unique e.cache_identity_hashes
    && eqb e.cold_run.planned (length e.cache_identity_hashes)
    && eqb e.resume_run.planned e.cold_run.planned
    && eqb e.validated_cache_artifact_count (length e.cache_identity_hashes)
    && eqb e.duplicate_validated_artifact_count 0
