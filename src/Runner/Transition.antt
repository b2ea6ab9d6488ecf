-- ===== src/Runner/Transition.antt =====
-- runner/state.py: what one operation of `TaskStateStore` does to the record of one task.
pub mod Edges
pub mod Invariant
pub mod Keeps
pub mod Abandoned
use schema_guard.Base.{
  ℕ, suc, ◌+◌, String, Bool, true, false, not, ◌&&◌, ◌||◌, Option, none, some, List, [], ◌∷◌, ◌++◌,
  ◌==◌, leb, optionally, last, map_last, length, if◌then◌else◌, Result, ok, err, invalid_transition,
  type_error, ◌>>=◌,
}
use schema_guard.Runner.Resource.{FailureCategory, fail_model_runtime, utc, ResourceRecord}
use schema_guard.Runner.Record.{
  TaskStatus, pending, running, complete, failed, blocked, cancelled, TaskAttempt, TaskTransition,
  TaskStateRecord,
}

abbrev pub is_pending : TaskStatus → Bool
is_pending pending = true
is_pending _ = false

abbrev pub is_running : TaskStatus → Bool
is_running running = true
is_running _ = false

abbrev pub is_complete : TaskStatus → Bool
is_complete complete = true
is_complete _ = false

abbrev pub is_failed : TaskStatus → Bool
is_failed failed = true
is_failed _ = false

abbrev pub is_blocked : TaskStatus → Bool
is_blocked blocked = true
is_blocked _ = false

-- `_ALLOWED`
unfoldable pub allowed : TaskStatus → TaskStatus → Bool
allowed pending running = true
allowed pending cancelled = true
allowed running complete = true
allowed running failed = true
allowed running blocked = true
allowed running cancelled = true
allowed _ _ = false

unfoldable pub reason_is : String → Option String → Bool
reason_is expected none = false
reason_is expected (some reason) = reason == expected

abbrev pub invalid_cache_artifact : String
invalid_cache_artifact = "INVALID_CACHE_ARTIFACT"

abbrev pub abandoned_lease_recovery : String
abandoned_lease_recovery = "ABANDONED_LEASE_RECOVERY"

-- The arguments of `transition` behind the task's identity.
pub record Request : Type 0 where
  pub to_state : TaskStatus
  pub reason : Option String
  pub failure_category : Option FailureCategory
  pub resource : Option ResourceRecord
  pub artifact_path : Option String
  pub artifact_sha256 : Option String
  pub cache_hit : Bool
  pub retry_failed : Bool

-- The three ways back to `PENDING`.
unfoldable pub retry_invalid_complete : TaskStatus → Request → Bool
unfolding reason_is
retry_invalid_complete from a =
    is_complete from && is_pending a.to_state && reason_is invalid_cache_artifact a.reason

unfoldable pub retry_abandoned : TaskStatus → Request → Bool
unfolding reason_is
retry_abandoned from a =
    is_running from && is_pending a.to_state && reason_is abandoned_lease_recovery a.reason

unfoldable pub retry_failed_state : TaskStatus → Request → Bool
retry_failed_state from a = is_failed from && is_pending a.to_state && a.retry_failed

-- The guard of `transition`.
unfoldable pub is_authorized : TaskStatus → Request → Bool
unfolding allowed retry_invalid_complete retry_abandoned retry_failed_state
is_authorized from a =
    allowed from a.to_state
    || retry_invalid_complete from a
    || retry_abandoned from a
    || retry_failed_state from a

-- The attempt that a worker starts.
unfoldable pub start_attempt : ℕ → ℕ → ℕ → TaskAttempt
start_attempt now pid number = record {
  attempt_number = number;
  state = running;
  started_at = utc now;
  heartbeat_at = utc now;
  ended_at = none;
  owner_pid = some pid;
  worker_pid = none;
  resource = none;
  failure_category = none;
  reason = none;
}

-- An attempt whose worker is lost keeps the resource that it had.
unfoldable pub close_abandoned : ℕ → Option String → TaskAttempt → TaskAttempt
close_abandoned now why attempt = record attempt {
  state = failed;
  ended_at = some (utc now);
  heartbeat_at = utc now;
  failure_category = some fail_model_runtime;
  reason = why;
}

unfoldable pub close_attempt : ℕ → Request → TaskAttempt → TaskAttempt
close_attempt now a attempt = record attempt {
  state = a.to_state;
  ended_at = some (utc now);
  heartbeat_at = utc now;
  resource = a.resource;
  failure_category = a.failure_category;
  reason = a.reason;
}

-- The attempts after a transition. `map_last` leaves an empty list alone, as the tests on
-- `attempts` do.
unfoldable pub next_attempts : ℕ → ℕ → TaskStateRecord → Request → List TaskAttempt
unfolding start_attempt close_abandoned close_attempt retry_abandoned
next_attempts now pid current a =
    if is_running a.to_state
    then current.attempts ++ start_attempt now pid (length current.attempts + 1) ∷ []
    else if retry_abandoned current.state a
    then map_last (close_abandoned now a.reason) current.attempts
    else if is_running current.state
    then map_last (close_attempt now a) current.attempts
    else current.attempts

-- The record that `transition` stores once its guard has passed.
unfoldable pub next_record : ℕ → ℕ → TaskStateRecord → Request → TaskStateRecord
unfolding next_attempts
next_record now pid current a =
    let done = is_complete a.to_state in
    let ended_badly = is_failed a.to_state || is_blocked a.to_state in
    record current {
      state = a.to_state;
      attempts = next_attempts now pid current a;
      transitions =
          current.transitions
          ++ record {
            from_state = current.state;
            to_state = a.to_state;
            timestamp = utc now;
            reason = a.reason;
          }
            ∷ [];
      artifact_path = if done then a.artifact_path else none;
      artifact_sha256 = if done then a.artifact_sha256 else none;
      cache_hit = if done then a.cache_hit else false;
      failure_category = if ended_badly then a.failure_category else none;
      failure_reason = if ended_badly then a.reason else none;
      updated_at = utc now;
    }

unfoldable pub transition_record : ℕ → ℕ → TaskStateRecord → Request → Result TaskStateRecord
unfolding is_authorized next_record
transition_record now pid current a =
    if is_authorized current.state a
    then ok (next_record now pid current a)
    else err invalid_transition

abbrev pub has_attempts : List TaskAttempt → Bool
has_attempts [] = false
has_attempts (x ∷ xs) = true

-- The guard that `heartbeat`, `set_worker_pid` and `recover_abandoned` share.
unfoldable pub is_live : TaskStateRecord → Bool
is_live r = is_running r.state && has_attempts r.attempts

unfoldable pub beat : ℕ → TaskAttempt → TaskAttempt
beat now attempt = record attempt { heartbeat_at = utc now }

unfoldable pub heartbeat_record : ℕ → TaskStateRecord → Result TaskStateRecord
unfolding is_live beat
heartbeat_record now r =
    if is_live r
    then ok (record r { attempts = map_last (beat now) r.attempts; updated_at = utc now })
    else err invalid_transition

unfoldable pub assign_worker : ℕ → TaskAttempt → TaskAttempt
assign_worker worker attempt = record attempt { worker_pid = some worker }

unfoldable pub worker_record : ℕ → TaskStateRecord → Result TaskStateRecord
unfolding is_live assign_worker
worker_record worker r =
    if is_live r
    then ok (record r { attempts = map_last (assign_worker worker) r.attempts })
    else err invalid_transition

-- The lease of an attempt has run out and neither of its processes exists. The difference of a
-- time with a zone and one without raises.
unfoldable pub is_abandoned : ℕ → ℕ → (ℕ → Bool) → TaskAttempt → Result Bool
is_abandoned now lease pid_exists attempt =
    if attempt.heartbeat_at.aware
    then ok (
        not (leb now (attempt.heartbeat_at.instant + lease))
        && optionally (λ p. not (pid_exists p)) attempt.owner_pid
        && optionally (λ p. not (pid_exists p)) attempt.worker_pid)
    else err type_error

-- The record that `recover_abandoned` stores for an abandoned attempt.
unfoldable pub recovered_record : ℕ → TaskStateRecord → TaskStateRecord
unfolding close_abandoned
recovered_record now r = record r {
  state = pending;
  attempts = map_last (close_abandoned now (some abandoned_lease_recovery)) r.attempts;
  transitions =
      r.transitions
      ++ record {
        from_state = running;
        to_state = pending;
        timestamp = utc now;
        reason = some abandoned_lease_recovery;
      }
        ∷ [];
  failure_category = none;
  failure_reason = none;
  updated_at = utc now;
}

-- One round of the loop of `recover_abandoned`: the record to store, if the task is recovered.
unfoldable pub recover_record :
    ℕ → ℕ → (ℕ → Bool) → TaskStateRecord → Result (Option TaskStateRecord)
unfolding is_abandoned recovered_record
recover_record now lease pid_exists r =
    if is_running r.state
    then elim (last r.attempts) [
      | none ↦ ok none
      | some attempt ↦ do
        gone ← is_abandoned now lease pid_exists attempt
        ok (if gone then some (recovered_record now r) else none)
    ]
    else ok none
