-- ===== src/Runner/State/Steps.antt =====
-- The operations of runner/state.py as steps on the state file, and what a step on one task did.
use schema_guard.Base.{
  ℕ, String, ◌≡◌, Bool, true, some, List, [], ◌∷◌, arith, Result, ok, Error, >>=-eq-ok,
}
use schema_guard.Base.Dict.{lookup}
use schema_guard.Hashing.{Digest}
use schema_guard.Runner.Plan.{RunPlan}
use schema_guard.Runner.Record.{TaskStateRecord, SchedulerState, state_is_valid}
use schema_guard.Runner.Transition.{Request}
use schema_guard.Runner.State.{
  StateFile, missing, unreadable, holds, read_state, find_task, store_task, step_task, initialize,
  transition, heartbeat, set_worker_pid, recover_abandoned,
}

-- One operation of the store, with the clock and the processes that it sees.
pub data Op : Type 0 where
  init : ℕ → RunPlan → Op
  move : ℕ → ℕ → String → Request → Op
  beat : ℕ → String → Op
  assign : String → ℕ → Op
  sweep : ℕ → ℕ → (ℕ → Bool) → Op

module _ (h : Digest) where
  -- The file that an operation leaves, whether it returns or raises.
  unfoldable pub run_op : Op → StateFile → StateFile
  run_op (init now plan) file = (initialize h now plan file).1
  run_op (move now pid task_id a) file = (transition h now pid task_id a file).1
  run_op (beat now task_id) file = (heartbeat h now task_id file).1
  run_op (assign task_id worker) file = (set_worker_pid h task_id worker file).1
  run_op (sweep now lease pid_exists) file = (recover_abandoned h now lease pid_exists file).1

  -- The operations of all the processes of a run, in the order in which they held the lock.
  unfoldable pub run_ops : List Op → StateFile → StateFile
  unfolding run_op
  run_ops [] file = file
  run_ops (op ∷ ops) file = run_ops ops (run_op op file)

  -- What is read from a sound file is what it holds.
  pub read_state-holds :
      (file : StateFile) {s : SchedulerState}
      → read_state h file ≡ ok s
      → (file ≡ holds s) × (state_is_valid h s ≡ true)
  unfolding read_state
  read_state-holds missing e = cc
  read_state-holds unreadable e = cc
  read_state-holds (holds s) e = ground arith

pub find_task_lem :
    (e : Error) (k : String) (s : SchedulerState) {r : TaskStateRecord}
    → find_task e k s ≡ ok r
    → lookup k s.tasks ≡ some r
unfolding find_task
find_task_lem e k s h = ground arith

-- What an operation on one task did, if it did not raise.
pub step_inv {ℓ} :
    {A : Type ℓ} (e : Error) (k : String) (step : TaskStateRecord → Result TaskStateRecord)
    (g : TaskStateRecord → A) (s : SchedulerState) {a : A} {s' : SchedulerState}
    → step_task e k step g s ≡ ok (a, s')
    → (r r' : TaskStateRecord) × (lookup k s.tasks ≡ some r)
      × (step r ≡ ok r')
      × (a ≡ g r')
      × (s' ≡ store_task k r' s)
unfolding step_task
step_inv e k step g s h =
    let (r, found, rest) = >>=-eq-ok (find_task e k s) _ h in
    let (r', stepped, done) = >>=-eq-ok (step r) _ rest in
    (r, r', find_task_lem e k s found, stepped, ground arith, ground arith)
