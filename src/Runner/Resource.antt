-- ===== src/Runner/Resource.antt =====
-- runner/contracts.py: failure categories, and what a worker's execution measured.
use schema_guard.Base.{
  ℕ, ℤ, String, Bool, true, false, not, ◌&&◌, ◌||◌, Option, some, ltb, leb, is_some, optionally,
}

pub data FailureCategory : Type 0 where
  fail_resource_limit fail_timeout fail_cuda_oom fail_resource_monitor : FailureCategory
  fail_model_runtime blocked_gpu_unavailable blocked_insufficient_vram : FailureCategory
  fail_cache_integrity : FailureCategory

-- A `datetime`: its instant in microseconds, and whether it has a time zone.
pub record Datetime : Type 0 where
  pub instant : ℕ
  pub aware : Bool

-- `datetime.now(UTC)` at an instant.
abbrev pub utc : ℕ → Datetime
utc n = record { instant = n; aware = true }

-- Measurements are finite and at least 0, in millionths of their unit.
pub record ResourceRecord : Type 0 where
  pub started_at : Datetime
  pub ended_at : Datetime
  pub wall_seconds : ℕ
  pub cpu_seconds : Option ℕ
  pub worker_pid : Option ℕ
  pub exit_code : Option ℤ
  pub peak_worker_rss_mib : Option ℕ
  pub peak_process_tree_rss_mib : Option ℕ
  pub gpu_allocated_mib : Option ℕ
  pub gpu_reserved_mib : Option ℕ
  pub gpu_free_before_mib : Option ℕ
  pub timed_out : Bool
  pub soft_limit_warning : Bool
  pub hard_limit_passed : Bool
  pub cleanup_passed : Bool
  pub telemetry_complete : Bool
  pub failure_category : Option FailureCategory
  pub failure_reason : Option String

abbrev is_timeout : Option FailureCategory → Bool
is_timeout (some fail_timeout) = true
is_timeout _ = false

abbrev is_resource_limit : Option FailureCategory → Bool
is_resource_limit (some fail_resource_limit) = true
is_resource_limit _ = false

-- `gt=0` on an optional process number.
abbrev pub pid_is_valid : Option ℕ → Bool
pid_is_valid = optionally (ltb 0)

-- The field constraints and `validate_measurement`.
unfoldable pub resource_is_valid : ResourceRecord → Bool
resource_is_valid r =
    pid_is_valid r.worker_pid
    && r.started_at.aware
    && r.ended_at.aware
    && leb r.started_at.instant r.ended_at.instant
    && (not (r.telemetry_complete && is_some r.worker_pid)
        || is_some r.peak_worker_rss_mib && is_some r.peak_process_tree_rss_mib)
    && (not r.timed_out || is_timeout r.failure_category)
    && (r.hard_limit_passed || is_resource_limit r.failure_category)
