-- ===== src/Runner/State/Configured.antt =====
-- The lease of runner/state.py under a configuration that cache/contracts.py accepts.
use schema_guard.Base.{ℕ, ◌+◌, ◌≤◌, ◌≡◌, String, Bool, true, some, last, ok, arith}
use schema_guard.Base.Dict.{lookup}
use schema_guard.Hashing.{Digest}
use schema_guard.Cache.Probes.{CacheSchedulerConfig, config_is_valid}
use schema_guard.Cache.Probes.Evidence.{heartbeat-lt-lease}
use schema_guard.Runner.Record.{TaskAttempt, TaskStateRecord, SchedulerState}
use schema_guard.Runner.State.{holds, recover_abandoned}
use schema_guard.Runner.State.Sound.{IsSound}
use schema_guard.Runner.State.Lease.{recover-unexpired}

-- Under an accepted configuration and on a sound file, a task whose last heartbeat is not older
-- than one heartbeat interval is left as it is by a recovery with the configured lease.
pub recover-configured :
    (h : Digest) (c : CacheSchedulerConfig) (now : ℕ) (pid_exists : ℕ → Bool) (s : SchedulerState)
    (k : String) (r : TaskStateRecord) (x : TaskAttempt)
    → config_is_valid c ≡ true
    → IsSound h (holds s)
    → lookup k s.tasks ≡ some r
    → last r.attempts ≡ some x
    → now ≤ x.heartbeat_at.instant + c.heartbeat_interval_seconds
    → (n : ℕ) × (t : SchedulerState) × (recover_abandoned h now c.abandoned_lease_seconds pid_exists
          (holds s)
        ≡ (ok n, holds t))
      × (lookup k t.tasks ≡ some r)
recover-configured h c now pid_exists s k r x v sound found is_last recent =
    let shorter = heartbeat-lt-lease c v in
    recover-unexpired h now c.abandoned_lease_seconds pid_exists s sound k r found x is_last
      (omega arith)
