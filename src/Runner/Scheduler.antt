-- ===== src/Runner/Scheduler.antt =====
-- runner/scheduler.py: how `Scheduler.run` decides, task by task, what becomes of a task before
-- any worker starts. What the run touches is the state file, the cache and the index.
pub mod Returns
pub mod Truthful
pub mod Keeps
use schema_guard.Base.{
  ℕ, String, Bool, true, false, not, Option, none, some, Error, Result, ok, err, ◌>>=◌,
  cache_integrity, key_error, if◌then◌else◌,
}
use schema_guard.Hashing.{Digest}
use schema_guard.Cache.Identity.{CacheIdentity, DevicePolicy, cpu, cuda}
use schema_guard.Cache.Files.{Files}
use schema_guard.Cache.Entry.{CacheArtifact}
use schema_guard.Cache.Store.{Store, read_validated, quarantine_invalid}
use schema_guard.Cache.Index.{IndexFile, add}
use schema_guard.Runner.Task.{TaskSpec}
use schema_guard.Runner.Record.{
  TaskStatus, pending, running, complete, failed, blocked, cancelled, TaskStateRecord,
}
use schema_guard.Runner.Transition.{Request, invalid_cache_artifact, is_pending}
use schema_guard.Runner.State.{StateFile, read_state, find_task, transition}

pub record World (B : Type 0) : Type 0 where
  pub file : StateFile
  pub store : Store B
  pub index : IndexFile

-- What the preparation of one task takes from outside: the process's own id, the clock at each
-- of its calls, the name of a quarantined entry, and the argument `retry_failed` of the run.
pub record Env : Type 0 where
  pub pid : ℕ
  pub retried_at : ℕ
  pub reset_at : ℕ
  pub started_at : ℕ
  pub finished_at : ℕ
  pub indexed_at : ℕ
  pub unique : String
  pub retry_failed : Bool

-- Where the loop leaves a task: counted as it is, as a validated hit, skipped, or queued.
pub data Outcome : Type 0 where
  counted_failed counted_blocked counted_cancelled cache_hit not_pending : Outcome
  queued_cpu queued_gpu : Outcome

abbrev plain : TaskStatus → String → Request
plain to_state reason = record {
  to_state = to_state;
  reason = some reason;
  failure_category = none;
  resource = none;
  artifact_path = none;
  artifact_sha256 = none;
  cache_hit = false;
  retry_failed = false;
}

-- `reason="EXPLICIT_RETRY", retry_failed=True`
unfoldable pub explicit_retry : Request
explicit_retry = record (plain pending "EXPLICIT_RETRY") { retry_failed = true }

unfoldable pub reset_invalid : Request
reset_invalid = plain pending invalid_cache_artifact

unfoldable pub start_hit : Request
start_hit = plain running "VALIDATED_CACHE_HIT"

unfoldable pub finish_hit : CacheArtifact → Request
finish_hit artifact = record (plain complete "VALIDATED_CACHE_HIT") {
  artifact_path = some artifact.payload_path;
  artifact_sha256 = some artifact.payload_sha256;
  cache_hit = true;
}

unfoldable pub start_scheduled : Request
start_scheduled = plain running "TASK_SCHEDULED"

-- `except CacheIntegrityError: artifact = None`
abbrev pub or_none : Result (Option CacheArtifact) → Result (Option CacheArtifact)
or_none (err cache_integrity) = ok none
or_none r = r

-- The next statement runs on what this one left, unless it raised.
abbrev pub and_then :
    {B A C : Type 0} → Result A × World B → (A → World B → Result C × World B) → Result C × World B
and_then (ok a, w) next = next a w
and_then (err e, w) next = (err e, w)

module _ {B : Type 0} (files : Files B) (h : Digest) (env : Env) where
  unfoldable pub move_task : ℕ → String → Request → World B → Result TaskStateRecord × World B
  move_task now task_id a w =
      let (result, file) = transition h now env.pid task_id a w.file in
      (result, record w { file = file })

  unfoldable pub index_artifact : CacheArtifact → World B → Result (Unit {0}) × World B
  index_artifact artifact w =
      let (result, index) = add env.indexed_at artifact w.index in
      (result, record w { index = index })

  unfoldable pub put_entry_aside : CacheIdentity → World B → Result (Option String) × World B
  put_entry_aside identity w =
      let (result, store) = quarantine_invalid files h env.unique identity w.store in
      (result, record w { store = store })

  -- `state.read().tasks[task.task_id]`
  unfoldable pub read_task : String → World B → Result TaskStateRecord
  read_task task_id w = do s ← read_state h w.file; find_task key_error task_id s

  -- A completed task: its artifact, if it validates, is indexed; if not, the task is reset and
  -- what is left of the entry is put aside.
  unfoldable pub resume_complete :
      TaskSpec → Option CacheArtifact → World B → Result (Option Outcome) × World B
  resume_complete task (some artifact) w =
      and_then (index_artifact artifact w) (λ _ w. (ok (some cache_hit), w))
  resume_complete task none w =
      and_then (move_task env.reset_at task.task_id reset_invalid w)
        (λ _ w. and_then (put_entry_aside task.cache_identity w) (λ _ w. (ok none, w)))

  -- The branch on the state of the record; no outcome means that the loop goes on with the task.
  unfoldable pub resume_task : TaskSpec → TaskStatus → World B → Result (Option Outcome) × World B
  resume_task task failed w =
      if env.retry_failed
      then and_then (move_task env.retried_at task.task_id explicit_retry w) (λ _ w. (ok none, w))
      else (ok (some counted_failed), w)
  resume_task task blocked w = (ok (some counted_blocked), w)
  resume_task task cancelled w = (ok (some counted_cancelled), w)
  resume_task task complete w =
      and_then (or_none (read_validated files h task.cache_identity w.store), w)
        (resume_complete task)
  resume_task task pending w = (ok none, w)
  resume_task task running w = (ok none, w)

  -- A pending task whose artifact is there is completed from the cache.
  unfoldable pub complete_from_cache : TaskSpec → CacheArtifact → World B → Result Outcome × World B
  complete_from_cache task artifact w =
      and_then (move_task env.started_at task.task_id start_hit w) (λ _ w.
        and_then (move_task env.finished_at task.task_id (finish_hit artifact) w)
          (λ _ w. and_then (index_artifact artifact w) (λ _ w. (ok cache_hit, w))))

  abbrev pub queue_of : DevicePolicy → Outcome
  queue_of cpu = queued_cpu
  queue_of cuda = queued_gpu

  unfoldable pub queue_task : TaskSpec → World B → Result Outcome × World B
  queue_task task w =
      and_then (move_task env.started_at task.task_id start_scheduled w)
        (λ _ w. (ok (queue_of task.cache_identity.device_policy), w))

  -- The second half of the loop's body, on what the validated read has returned or raised. An
  -- entry that does not validate is put aside first.
  unfoldable pub schedule_found :
      TaskSpec → Result (Option CacheArtifact) → World B → Result Outcome × World B
  schedule_found task (ok (some artifact)) w = complete_from_cache task artifact w
  schedule_found task (ok none) w = queue_task task w
  schedule_found task (err cache_integrity) w =
      and_then (put_entry_aside task.cache_identity w) (λ _ w. queue_task task w)
  schedule_found task (err e) w = (err e, w)

  unfoldable pub schedule_record : TaskSpec → TaskStateRecord → World B → Result Outcome × World B
  schedule_record task r w =
      if is_pending r.state
      then schedule_found task (read_validated files h task.cache_identity w.store) w
      else (ok not_pending, w)

  -- The record is read again.
  unfoldable pub schedule_task : TaskSpec → World B → Result Outcome × World B
  schedule_task task w = and_then (read_task task.task_id w, w) (schedule_record task)

  -- The rest of a round behind the first branch.
  unfoldable pub finish_round : TaskSpec → Option Outcome → World B → Result Outcome × World B
  finish_round task (some outcome) w = (ok outcome, w)
  finish_round task none w = schedule_task task w

  -- One round of the loop over `plan.tasks`.
  unfoldable pub prepare_task : TaskSpec → World B → Result Outcome × World B
  prepare_task task w =
      and_then (read_task task.task_id w, w)
        (λ r w. and_then (resume_task task r.state w) (finish_round task))
