-- ===== src/Runner/State.antt =====
-- runner/state.py: the persisted state of a run, and the operations of `TaskStateStore` on it. Each
-- holds the process lock from its read to its write, so it is one step on the state file.
pub mod Steps
pub mod Sweep
pub mod Sound
pub mod History
pub mod Lives
pub mod Progress
pub mod Recovery
pub mod Outcome
pub mod Accepts
pub mod Lease
pub mod Configured
use mathlib.Core.List.{foldl}
use schema_guard.Base.{
  ℕ, suc, String, Bool, true, false, not, ◌&&◌, ◌||◌, Option, none, some, List, [], ◌∷◌, map, ◌==◌,
  eqb, all, if◌then◌else◌, Result, ok, err, Error, state_integrity, validation_error, key_error,
  ◌>>=◌,
}
use schema_guard.Base.Dict.{Dict, lookup, insert, keys, contains}
use schema_guard.Hashing.{Digest}
use schema_guard.Runner.Task.{TaskSpec, task_eq}
use schema_guard.Runner.Plan.{RunPlan, plan_hash}
use schema_guard.Runner.Record.{TaskStateRecord, SchedulerState, new_record, state_is_valid}
use schema_guard.Runner.Transition.{
  Request, transition_record, heartbeat_record, worker_record, recover_record,
}

-- The state file: missing, not readable as JSON of the expected shape, or holding a state.
pub data StateFile : Type 0 where
  missing unreadable : StateFile
  holds : SchedulerState → StateFile

-- `{task.task_id: task for task in tasks}`
unfoldable pub by_id : List TaskSpec → Dict TaskSpec
unfolding insert
by_id = foldl (λ d t. insert t.task_id t d) []

module _ (h : Digest) where
  -- `_read`
  unfoldable pub read_state : StateFile → Result SchedulerState
  unfolding state_is_valid
  read_state missing = err state_integrity
  read_state unreadable = err state_integrity
  read_state (holds s) = if state_is_valid h s then ok s else err state_integrity

  -- `_write` of a new state, and the value that the operation returns behind it. The state is
  -- validated first, so a refusal leaves the file as it was.
  unfoldable pub write_state {ℓ} :
      {A : Type ℓ} → StateFile → A × SchedulerState → Result A × StateFile
  unfolding state_is_valid
  write_state file (a, s) =
      if state_is_valid h s then (ok a, holds s) else (err validation_error, file)

  -- What an operation computed is written, and what it raised leaves the file alone.
  unfoldable pub commit {ℓ} :
      {A : Type ℓ} → StateFile → Result (A × SchedulerState) → Result A × StateFile
  unfolding write_state
  commit file (ok (a, s)) = write_state file (a, s)
  commit file (err e) = (err e, file)

  -- An operation that reads the state, computes a new one or raises, and writes it.
  unfoldable pub update_state {ℓ} :
      {A : Type ℓ}
      → StateFile
      → (SchedulerState → Result (A × SchedulerState))
      → Result A × StateFile
  unfolding read_state commit
  update_state file change = commit file (read_state file >>= change)

-- `state.tasks[task_id]`; a missing key raises the given error.
unfoldable pub find_task : Error → String → SchedulerState → Result TaskStateRecord
unfolding lookup
find_task e task_id s = elim (lookup task_id s.tasks) [ none ↦ err e | some r ↦ ok r ]

-- `state.tasks[task_id] = r`
unfoldable pub store_task : String → TaskStateRecord → SchedulerState → SchedulerState
unfolding insert
store_task task_id r s = record s { tasks = insert task_id r s.tasks }

-- The body that `transition`, `heartbeat` and `set_worker_pid` share: the record of the task is read,
-- the step raises or yields a new record, and that is stored.
unfoldable pub step_task {ℓ} :
    {A : Type ℓ}
    → Error
    → String
    → (TaskStateRecord → Result TaskStateRecord)
    → (TaskStateRecord → A)
    → SchedulerState
    → Result (A × SchedulerState)
unfolding find_task store_task
step_task e task_id step result s = do
  current ← find_task e task_id s
  updated ← step current
  ok (result updated, store_task task_id updated s)

-- One round of the loop of `recover_abandoned` on the count and on the records behind it.
unfoldable pub keep_record :
    String
    → TaskStateRecord
    → Option TaskStateRecord
    → ℕ × Dict TaskStateRecord
    → ℕ × Dict TaskStateRecord
keep_record k r none (n, rest) = (n, (k, r) ∷ rest)
keep_record k r (some r') (n, rest) = (suc n, (k, r') ∷ rest)

-- The records that the loop of `recover_abandoned` leaves, and how many it recovered.
unfoldable pub recover_tasks :
    ℕ → ℕ → (ℕ → Bool) → Dict TaskStateRecord → Result (ℕ × Dict TaskStateRecord)
unfolding recover_record keep_record
recover_tasks now lease pid_exists [] = ok (0, [])
recover_tasks now lease pid_exists ((k, r) ∷ tasks) = do
  recovered ← recover_record now lease pid_exists r
  swept ← recover_tasks now lease pid_exists tasks
  ok (keep_record k r recovered swept)

-- The body of `recover_abandoned` between its read and its write.
unfoldable pub sweep_state : ℕ → ℕ → (ℕ → Bool) → SchedulerState → Result (ℕ × SchedulerState)
unfolding recover_tasks
sweep_state now lease pid_exists s = do
  (n, tasks) ← recover_tasks now lease pid_exists s.tasks
  ok (n, record s { tasks = tasks })

-- The persisted task is that of the plan.
same_task : Dict TaskStateRecord → String × TaskSpec → Bool
unfolding lookup task_eq
same_task tasks (k, t) = elim (lookup k tasks) [ none ↦ false | some r ↦ task_eq r.task t ]

-- `set(xs) == set(ys)`
unfoldable pub same_keys : List String → List String → Bool
unfolding contains
same_keys xs ys = all (λ x. contains x ys) xs && all (λ y. contains y xs) ys

module _ (h : Digest) where
  -- The two checks of `initialize` on a state that is there.
  unfoldable pub matches_plan : RunPlan → SchedulerState → Bool
  unfolding same_task same_keys by_id plan_hash
  matches_plan plan s =
      let expected = by_id plan.tasks in
      s.plan_hash == plan_hash h plan
      && same_keys (keys s.tasks) (keys expected)
      && all (same_task s.tasks) expected

  unfoldable pub initial_state : ℕ → RunPlan → SchedulerState
  unfolding by_id plan_hash new_record
  initial_state now plan = record {
    schema_version = 1;
    plan_hash = plan_hash h plan;
    tasks = map (λ e. (e.0, new_record now e.1)) (by_id plan.tasks);
  }

  unfoldable pub initialize : ℕ → RunPlan → StateFile → Result SchedulerState × StateFile
  unfolding read_state write_state matches_plan initial_state
  initialize now plan missing = let s = initial_state now plan in write_state h missing (s, s)
  initialize now plan file =
      ((do s ← read_state h file; if matches_plan plan s then ok s else err state_integrity), file)

  unfoldable pub transition :
      ℕ → ℕ → String → Request → StateFile → Result TaskStateRecord × StateFile
  unfolding update_state step_task transition_record
  transition now pid task_id a file =
      update_state h file
        (step_task state_integrity task_id (λ r. transition_record now pid r a) (λ r. r))

  unfoldable pub heartbeat : ℕ → String → StateFile → Result (Unit {0}) × StateFile
  unfolding update_state step_task heartbeat_record
  heartbeat now task_id file =
      update_state h file (step_task key_error task_id (heartbeat_record now) (λ r. tt))

  unfoldable pub set_worker_pid : String → ℕ → StateFile → Result (Unit {0}) × StateFile
  unfolding update_state step_task worker_record
  set_worker_pid task_id worker file =
      update_state h file (step_task key_error task_id (worker_record worker) (λ r. tt))

  -- Nothing is written if nothing was recovered.
  unfoldable pub commit_recovery : StateFile → Result (ℕ × SchedulerState) → Result ℕ × StateFile
  unfolding write_state
  commit_recovery file (ok (n, s)) = if eqb n 0 then (ok 0, file) else write_state h file (n, s)
  commit_recovery file (err e) = (err e, file)

  unfoldable pub recover_abandoned : ℕ → ℕ → (ℕ → Bool) → StateFile → Result ℕ × StateFile
  unfolding read_state sweep_state commit_recovery
  recover_abandoned now lease pid_exists file =
      commit_recovery file (read_state h file >>= sweep_state now lease pid_exists)
