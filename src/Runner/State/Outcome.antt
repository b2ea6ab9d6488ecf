-- ===== src/Runner/State/Outcome.antt =====
-- What the operations of runner/state.py raise leaves the file alone, and what they returned they have
-- read and written.
use schema_guard.Base.{
  ℕ, String, ◌≡◌, refl, sym, ap, ◌∙◌, Bool, true, Option, none, some, arith, Result, ok, err, Error,
  state_integrity, key_error, ◌>>=◌, >>=-eq-ok,
}
use schema_guard.Base.Dict.{lookup}
use schema_guard.Hashing.{Digest}
use schema_guard.Runner.Plan.{RunPlan}
use schema_guard.Runner.Record.{TaskStateRecord, SchedulerState}
use schema_guard.Runner.Transition.{
  Request, next_record, transition_record, heartbeat_record, worker_record,
}
use schema_guard.Runner.Transition.Edges.{Permitted, Permitted-of_ok}
use schema_guard.Runner.State.{
  StateFile, missing, holds, read_state, write_state, update_state, step_task, store_task,
  sweep_state, commit, commit_recovery, initialize, transition, heartbeat, set_worker_pid,
  recover_abandoned,
}
use schema_guard.Runner.State.Steps.{
  Op, init, move, beat, assign, sweep, run_op, read_state-holds, step_inv,
}

-- The error that an operation raised, if it did.
unfoldable pub error_of {ℓ} : {A : Type ℓ} → Result A → Option Error
error_of (ok a) = none
error_of (err e) = some e

module _ (h : Digest) where
  unfoldable pub op_error : Op → StateFile → Option Error
  unfolding error_of
  op_error (init now plan) file = error_of (initialize h now plan file).0
  op_error (move now pid task_id a) file = error_of (transition h now pid task_id a file).0
  op_error (beat now task_id) file = error_of (heartbeat h now task_id file).0
  op_error (assign task_id worker) file = error_of (set_worker_pid h task_id worker file).0
  op_error (sweep now lease pid_exists) file =
      error_of (recover_abandoned h now lease pid_exists file).0

  commit_error {ℓ} :
      {A : Type ℓ} (file : StateFile) (r : Result (A × SchedulerState)) (e : Error)
      → error_of (commit h file r).0 ≡ some e
      → (commit h file r).1 ≡ file
  unfolding commit write_state error_of
  commit_error file (ok (a, s)) e p = ground arith
  commit_error file (err f) e p = refl

  commit_recovery_error :
      (file : StateFile) (r : Result (ℕ × SchedulerState)) (e : Error)
      → error_of (commit_recovery h file r).0 ≡ some e
      → (commit_recovery h file r).1 ≡ file
  unfolding commit_recovery write_state error_of
  commit_recovery_error file (ok (n, s)) e p = ground arith
  commit_recovery_error file (err f) e p = refl

  update_state_error {ℓ} :
      {A : Type ℓ} (change : SchedulerState → Result (A × SchedulerState)) (file : StateFile)
      (e : Error)
      → error_of (update_state h file change).0 ≡ some e
      → (update_state h file change).1 ≡ file
  unfolding update_state
  update_state_error change file e p = commit_error file (read_state h file >>= change) e p

  init_error :
      (now : ℕ) (plan : RunPlan) (file : StateFile) (e : Error)
      → error_of (initialize h now plan file).0 ≡ some e
      → (initialize h now plan file).1 ≡ file
  unfolding initialize write_state error_of
  init_error now plan missing e p = ground arith
  init_error now plan file e p = refl

  sweep_error :
      (now lease : ℕ) (pid_exists : ℕ → Bool) (file : StateFile) (e : Error)
      → error_of (recover_abandoned h now lease pid_exists file).0 ≡ some e
      → (recover_abandoned h now lease pid_exists file).1 ≡ file
  unfolding recover_abandoned
  sweep_error now lease pid_exists file e p =
      commit_recovery_error file (read_state h file >>= sweep_state now lease pid_exists) e p

  -- An operation that raises leaves the state file as it was.
  pub run_op_error :
      (op : Op) (file : StateFile) (e : Error) → op_error op file ≡ some e → run_op h op file ≡ file
  unfolding op_error run_op
  run_op_error (init now plan) file e p = init_error now plan file e p
  run_op_error (move now pid task_id a) file e p =
      unfold transition in
      update_state_error
        (step_task state_integrity task_id (λ r. transition_record now pid r a) (λ r. r)) file e p
  run_op_error (beat now task_id) file e p =
      unfold heartbeat in
      update_state_error (step_task key_error task_id (heartbeat_record now) (λ r. tt)) file e p
  run_op_error (assign task_id worker) file e p =
      unfold set_worker_pid in
      update_state_error (step_task key_error task_id (worker_record worker) (λ r. tt)) file e p
  run_op_error (sweep now lease pid_exists) file e p = sweep_error now lease pid_exists file e p

  pub commit_ok {ℓ} :
      {A : Type ℓ} (file : StateFile) (r : Result (A × SchedulerState)) {a : A} {file' : StateFile}
      → commit h file r ≡ (ok a, file')
      → (s : SchedulerState) × (r ≡ ok (a, s)) × (file' ≡ holds s)
  unfolding commit write_state
  commit_ok file (ok (a, s)) e = (s, ground arith, ground arith)
  commit_ok file (err f) e = absurd (ground arith)

  -- What an update that returned has read and written.
  pub update_state_ok {ℓ} :
      {A : Type ℓ} (file : StateFile) (change : SchedulerState → Result (A × SchedulerState))
      {a : A} {file' : StateFile}
      → update_state h file change ≡ (ok a, file')
      → (s s' : SchedulerState) × (file ≡ holds s) × (change s ≡ ok (a, s')) × (file' ≡ holds s')
  unfolding update_state
  update_state_ok file change e =
      let (s', made, wrote) = commit_ok file (read_state h file >>= change) e in
      let (s, readable, changed) = >>=-eq-ok (read_state h file) change made in
      (s, s', (read_state-holds h file readable).0, changed, wrote)

  pub transition_lem :
      (now pid : ℕ) (k : String) (a : Request) (file : StateFile)
      → transition h now pid k a file
        ≡ update_state h file
            (step_task state_integrity k (λ r. transition_record now pid r a) (λ r. r))
  unfolding transition
  transition_lem now pid k a file = refl

  -- A transition that returned took the task of its key over an edge of the diagram, returned the
  -- next record and stored it, and changed nothing else in the file.
  pub transition_ok :
      (now pid : ℕ) (k : String) (a : Request) (file : StateFile) {r' : TaskStateRecord}
      {file' : StateFile}
      → transition h now pid k a file ≡ (ok r', file')
      → (s : SchedulerState) × (r : TaskStateRecord) × (file ≡ holds s)
        × (lookup k s.tasks ≡ some r)
        × Permitted a.reason true r.state a.to_state
        × (r' ≡ next_record now pid r a)
        × (file' ≡ holds (store_task k r' s))
  transition_ok now pid k a file e =
      let (s, s', held, changed, wrote) =
        update_state_ok file
          (step_task state_integrity k (λ r. transition_record now pid r a) (λ r. r))
          (sym (transition_lem now pid k a file) ∙ e) in
      let (r, q, found, stepped, same, stored) =
        step_inv state_integrity k (λ r. transition_record now pid r a) (λ r. r) s changed in
      let (p, made) = Permitted-of_ok now pid r a stepped in
      (
        s,
        r,
        held,
        found,
        p,
        same ∙ made,
        wrote ∙ ap holds (stored ∙ ap (λ x. store_task k x s) (sym same)),
      )
