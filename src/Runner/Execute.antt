-- ===== src/Runner/Execute.antt =====
-- runner/scheduler.py: `_execute_locked`, the execution of one task under its identity's lock. The
-- worker process is an argument: what it does to the state file while it runs, and what comes of it.
pub mod Published
use schema_guard.Base.{
  ℕ, String, Bool, true, false, not, ◌&&◌, ◌||◌, Option, none, some, List, ◌==◌, Error, Result, ok,
  err, cache_integrity, if◌then◌else◌,
}
use schema_guard.Hashing.{Digest}
use schema_guard.Cache.Files.{Files}
use schema_guard.Cache.Entry.{CacheArtifact}
use schema_guard.Cache.Store.{Source, Replace, PublishResult, read_validated, publish_file}
use schema_guard.Runner.Task.{TaskSpec}
use schema_guard.Runner.Resource.{
  FailureCategory, fail_model_runtime, fail_cache_integrity, blocked_gpu_unavailable,
  blocked_insufficient_vram, ResourceRecord,
}
use schema_guard.Runner.Record.{TaskStatus, complete, failed, blocked, TaskStateRecord}
use schema_guard.Runner.Transition.{Request, is_running}
use schema_guard.Runner.State.Steps.{Op, run_ops}
use schema_guard.Runner.Scheduler.{
  World, Env, and_then, move_task, index_artifact, put_entry_aside, read_task,
}

-- The keys of a worker's result that the scheduler reads.
pub record WorkerResult : Type 0 where
  pub task_id : Option String
  pub payload_sha256 : Option String

pub record WorkerExecution : Type 0 where
  pub passed : Bool
  pub resource : ResourceRecord
  pub result : Option WorkerResult
  pub failure_category : Option FailureCategory
  pub failure_reason : Option String

-- The worker's `payload.bin`: what is hashed for the check, and what the publication reads later.
pub record Produced (B : Type 0) : Type 0 where
  pub checked : B
  pub source : Source B

-- A worker from start to end.
pub record Worker (B : Type 0) : Type 0 where
  pub during : List Op
  pub outcome : WorkerExecution
  pub produced : Option (Produced B)

-- The checks before a GPU worker: passed, or the reason that the task is blocked for.
pub data Preflight : Type 0 where
  ready : Preflight
  telemetry_missing : Preflight
  budget_refused : (insufficient : Bool) (message : String) → Preflight

-- What `_execute_locked` takes from outside: the clock of the publication, the answer to
-- `os.replace`, the checks, the worker, and the texts of exceptions and of categories.
pub record Surroundings (B : Type 0) : Type 0 where
  pub published_at : ℕ
  pub replace : Replace B
  pub preflight : Preflight
  pub worker : Worker B
  pub exception_text : Error → String
  pub category_text : FailureCategory → String

pub data Executed : Type 0 where
  taken_from_cache : CacheArtifact → Executed
  computed : WorkerExecution → CacheArtifact → Executed
  left_blocked : Executed
  left_failed : FailureCategory → Executed

abbrev pub or_else {ℓ} : {A : Type ℓ} → A → Option A → A
or_else a none = a
or_else a (some b) = b

-- `reason or text`: an empty reason counts as none.
abbrev pub text_or : String → Option String → String
text_or text none = text
text_or text (some reason) = if reason == "" then text else reason

abbrev same_text : Option String → String → Bool
same_text none t = false
same_text (some s) t = s == t

-- `COMPLETE` with the artifact.
unfoldable pub finish : String → Option ResourceRecord → Bool → CacheArtifact → Request
finish why resource hit artifact = record {
  to_state = complete;
  reason = some why;
  failure_category = none;
  resource = resource;
  artifact_path = some artifact.payload_path;
  artifact_sha256 = some artifact.payload_sha256;
  cache_hit = hit;
  retry_failed = false;
}

-- `FAILED` or `BLOCKED` with a reason.
unfoldable pub give_up : TaskStatus → String → FailureCategory → Option ResourceRecord → Request
give_up to_state why category resource = record {
  to_state = to_state;
  reason = some why;
  failure_category = some category;
  resource = resource;
  artifact_path = none;
  artifact_sha256 = none;
  cache_hit = false;
  retry_failed = false;
}

abbrev pub integrity_reason : String
integrity_reason = "worker output is missing or differs from its returned digest"

-- `_replace_with_integrity_failure`
unfoldable pub replace_with_integrity_failure : WorkerExecution → WorkerExecution
replace_with_integrity_failure o = record {
  passed = false;
  resource = record o.resource {
    failure_category = some fail_cache_integrity;
    failure_reason = some integrity_reason;
  };
  result = o.result;
  failure_category = some fail_cache_integrity;
  failure_reason = some integrity_reason;
}

module _ {B : Type 0} (files : Files B) (h : Digest) (env : Env) (around : Surroundings B) where
  -- The worker's result names this task and the digest of the file that is there.
  unfoldable pub output_matches : TaskSpec → WorkerResult → Option (Produced B) → Bool
  output_matches task result none = false
  output_matches task result (some produced) =
      same_text result.task_id task.task_id
      && same_text result.payload_sha256 (files.sha256_file produced.checked)

  unfoldable pub check_output : TaskSpec → WorkerExecution → Option (Produced B) → WorkerExecution
  check_output task o produced =
      if o.passed && not (result_is_fine o.result) then replace_with_integrity_failure o else o
    where
      result_is_fine : Option WorkerResult → Bool
      result_is_fine none = true
      result_is_fine (some result) = output_matches task result produced

  abbrev pub source_of : Option (Produced B) → Option (Source B)
  source_of none = none
  source_of (some produced) = some produced.source

  unfoldable pub publish_output :
      TaskSpec → Option (Produced B) → World B → Result PublishResult × World B
  publish_output task produced w =
      let (result, store) =
        publish_file files h around.published_at around.replace task.cache_identity
          (source_of produced) task.task_id w.store in
      (result, record w { store = store })

  -- A passing outcome is published, indexed and only then completed.
  unfoldable pub accept_output :
      TaskSpec → WorkerExecution → Option (Produced B) → World B → Result Executed × World B
  accept_output task o produced w = and_then (publish_output task produced w) (λ published w.
      and_then (index_artifact files h env published.artifact w) (λ _ w.
        and_then
          (move_task files h env env.finished_at task.task_id
            (finish "ARTIFACT_VALIDATED_AND_PUBLISHED" (some o.resource) false published.artifact)
            w)
          (λ _ w. (ok (computed o published.artifact), w))))

  unfoldable pub reject_output : TaskSpec → WorkerExecution → World B → Result Executed × World B
  reject_output task o w =
      let category = or_else fail_model_runtime o.failure_category in
      and_then
        (move_task files h env env.finished_at task.task_id
          (give_up failed (text_or (around.category_text category) o.failure_reason) category
            (some o.resource))
          w)
        (λ _ w. (ok (left_failed category), w))

  -- The worker runs, and its outcome is judged.
  unfoldable pub run_worker : TaskSpec → World B → Result Executed × World B
  run_worker task w =
      let v : World B = record w { file = run_ops h around.worker.during w.file } in
      let o = check_output task around.worker.outcome around.worker.produced in
      if o.passed then accept_output task o around.worker.produced v else reject_output task o v

  unfoldable pub block_task :
      TaskSpec → FailureCategory → String → World B → Result Executed × World B
  block_task task category why w =
      and_then
        (move_task files h env env.finished_at task.task_id (give_up blocked why category none) w)
        (λ _ w. (ok left_blocked, w))

  unfoldable pub compute_task : TaskSpec → Preflight → World B → Result Executed × World B
  compute_task task ready w = run_worker task w
  compute_task task telemetry_missing w =
      block_task task blocked_gpu_unavailable
        "BLOCKED_GPU_UNAVAILABLE: required GPU telemetry missing" w
  compute_task task (budget_refused true message) w =
      block_task task blocked_insufficient_vram message w
  compute_task task (budget_refused false message) w =
      block_task task blocked_gpu_unavailable message w

  unfoldable pub take_from_cache : TaskSpec → CacheArtifact → World B → Result Executed × World B
  take_from_cache task artifact w =
      and_then
        (move_task files h env env.finished_at task.task_id
          (finish "VALIDATED_CACHE_HIT_AFTER_LOCK" none true artifact) w)
        (λ _ w.
          and_then (index_artifact files h env artifact w)
            (λ _ w. (ok (taken_from_cache artifact), w)))

  -- The cache is asked again under the lock.
  unfoldable pub execute_found :
      TaskSpec → Result (Option CacheArtifact) → World B → Result Executed × World B
  execute_found task (ok (some artifact)) w = take_from_cache task artifact w
  execute_found task (ok none) w = compute_task task around.preflight w
  execute_found task (err cache_integrity) w =
      and_then (put_entry_aside files h env task.cache_identity w)
        (λ _ w. compute_task task around.preflight w)
  execute_found task (err e) w = (err e, w)

  abbrev pub category_of : Error → FailureCategory
  category_of cache_integrity = fail_cache_integrity
  category_of _ = fail_model_runtime

  -- The handler of every exception: a task that still runs fails.
  unfoldable pub handle_exception : TaskSpec → Error → World B → Result Executed × World B
  handle_exception task e w =
      and_then (read_task files h env task.task_id w, w)
        (λ current w.
          if is_running current.state
          then and_then
              (move_task files h env env.finished_at task.task_id
                (give_up failed (around.exception_text e) (category_of e) none) w)
              (λ _ w. (ok (left_failed (category_of e)), w))
          else (ok (left_failed (category_of e)), w))

  abbrev pub guarded : TaskSpec → Result Executed × World B → Result Executed × World B
  guarded task (ok x, w) = (ok x, w)
  guarded task (err e, w) = handle_exception task e w

  unfoldable pub execute_locked : TaskSpec → World B → Result Executed × World B
  execute_locked task w =
      guarded task (execute_found task (read_validated files h task.cache_identity w.store) w)
