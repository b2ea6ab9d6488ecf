-- ===== src/Runner/State/Sound.antt =====
-- The state file between two operations of runner/state.py: it can be read back, and every record
-- in it is consistent.
use schema_guard.Base.{
  ℕ, String, ◌≡◌, refl, sym, subst, inl, inr, Bool, true, List, [], ◌∷◌, map, arith, Result, ok,
  err, Error, key_error, state_integrity, ◌>>=◌, >>=-eq-ok, Bool-cases, eqb,
}
use schema_guard.Base.Dict.{Dict, AllValues, AllValues-lookup, AllValues-insert}
use schema_guard.Hashing.{Digest}
use schema_guard.Runner.Task.{TaskSpec}
use schema_guard.Runner.Plan.{RunPlan}
use schema_guard.Runner.Record.{TaskStateRecord, SchedulerState, new_record, state_is_valid}
use schema_guard.Runner.Transition.{transition_record, heartbeat_record, worker_record}
use schema_guard.Runner.Transition.Edges.{Permitted-of_ok}
use schema_guard.Runner.Transition.Invariant.{
  IsConsistent, new_record-IsConsistent, next_record-IsConsistent,
}
use schema_guard.Runner.Transition.Keeps.{
  heartbeat_record-IsConsistent, worker_record-IsConsistent, recovered_record-IsConsistent,
}
use schema_guard.Runner.State.{
  StateFile, missing, unreadable, holds, read_state, write_state, update_state, store_task,
  step_task, by_id, initial_state, sweep_state, commit, commit_recovery, initialize, transition,
  heartbeat, set_worker_pid, recover_abandoned,
}
use schema_guard.Runner.State.Steps.{Op, init, move, beat, assign, sweep, run_op, run_ops, step_inv}
use schema_guard.Runner.State.Sweep.{Swept, done, taken, kept, sweep_state-Swept}

abbrev pub AllConsistent : SchedulerState → Type 0
AllConsistent s = AllValues IsConsistent s.tasks

module _ (h : Digest) where
  abbrev pub IsSound : StateFile → Type 0
  IsSound missing = Unit
  IsSound unreadable = ⊥
  IsSound (holds s) = (state_is_valid h s ≡ true) × AllConsistent s

  write_state-IsSound {ℓ} :
      {A : Type ℓ} (file : StateFile) (a : A) (s : SchedulerState)
      → IsSound file
      → AllConsistent s
      → IsSound (write_state h file (a, s)).1
  unfolding write_state
  write_state-IsSound file a s f c = elim (Bool-cases (state_is_valid h s)) [
    | inl valid ↦ rw valid (valid, c)
    | inr invalid ↦ rw invalid f
  ]

  commit-IsSound {ℓ} :
      {A : Type ℓ} (file : StateFile) (r : Result (A × SchedulerState))
      → IsSound file
      → ((a : A) (s : SchedulerState) → r ≡ ok (a, s) → AllConsistent s)
      → IsSound (commit h file r).1
  unfolding commit
  commit-IsSound file (ok (a, s)) f keep = write_state-IsSound file a s f (keep a s refl)
  commit-IsSound file (err e) f keep = f

  commit_recovery-IsSound :
      (file : StateFile) (r : Result (ℕ × SchedulerState))
      → IsSound file
      → ((n : ℕ) (s : SchedulerState) → r ≡ ok (n, s) → AllConsistent s)
      → IsSound (commit_recovery h file r).1
  unfolding commit_recovery
  commit_recovery-IsSound file (ok (n, s)) f keep = elim (Bool-cases (eqb n 0)) [
    | inl nothing ↦ rw nothing f
    | inr found ↦ rw found (write_state-IsSound file n s f (keep n s refl))
  ]
  commit_recovery-IsSound file (err e) f keep = f

  read_state-AllConsistent :
      (file : StateFile) (s : SchedulerState)
      → IsSound file
      → read_state h file ≡ ok s
      → AllConsistent s
  unfolding read_state
  read_state-AllConsistent missing s f e = cc
  read_state-AllConsistent unreadable s f e = cc
  read_state-AllConsistent (holds s') s f e =
      let p : s' ≡ s = ground arith in subst AllConsistent p f.1

  -- An update is sound if it takes consistent records to consistent records.
  update_state-IsSound {ℓ} :
      {A : Type ℓ} (file : StateFile) (change : SchedulerState → Result (A × SchedulerState))
      → ((s : SchedulerState) (a : A) (s' : SchedulerState)
          → AllConsistent s
          → change s ≡ ok (a, s')
          → AllConsistent s')
      → IsSound file
      → IsSound (update_state h file change).1
  unfolding update_state
  update_state-IsSound file change keep f =
      commit-IsSound file (read_state h file >>= change) f λ a s' e.
        let (s, readable, changed) = >>=-eq-ok (read_state h file) change e in
        keep s a s' (read_state-AllConsistent file s f readable) changed

step-AllConsistent {ℓ} :
    {A : Type ℓ} (e : Error) (k : String) (step : TaskStateRecord → Result TaskStateRecord)
    (g : TaskStateRecord → A)
    → ((r r' : TaskStateRecord) → step r ≡ ok r' → IsConsistent r → IsConsistent r')
    → (s : SchedulerState) (a : A) (s' : SchedulerState) → AllConsistent s
    → step_task e k step g s ≡ ok (a, s')
    → AllConsistent s'
unfolding store_task
step-AllConsistent e k step g keep s a s' c h =
    let (r, r', found, stepped, _, stored) = step_inv e k step g s h in
    subst AllConsistent (sym stored) (
      AllValues-insert IsConsistent k r' s.tasks
        (keep r r' stepped (AllValues-lookup IsConsistent k s.tasks r c found)) c)

module _ (now lease : ℕ) (pid_exists : ℕ → Bool) where
  pub Swept-AllConsistent :
      {d : Dict TaskStateRecord} {n : ℕ} {d' : Dict TaskStateRecord}
      → Swept now lease pid_exists d n d'
      → AllValues IsConsistent d
      → AllValues IsConsistent d'
  Swept-AllConsistent done c = tt
  Swept-AllConsistent (taken {r = r} a w) c =
      (recovered_record-IsConsistent now r a.live c.0, Swept-AllConsistent w c.1)
  Swept-AllConsistent (kept a w) c = (c.0, Swept-AllConsistent w c.1)

-- A plan's tasks start with consistent records.
fresh-AllConsistent :
    (now : ℕ) (d : Dict TaskSpec) → AllValues IsConsistent (map (λ e. (e.0, new_record now e.1)) d)
fresh-AllConsistent now [] = tt
fresh-AllConsistent now ((k, t) ∷ d) = (new_record-IsConsistent now t, fresh-AllConsistent now d)

module _ (h : Digest) where
  init-IsSound :
      (now : ℕ) (plan : RunPlan) (file : StateFile)
      → IsSound h file
      → IsSound h (initialize h now plan file).1
  unfolding initialize initial_state
  init-IsSound now plan missing f =
      let s = initial_state h now plan in
      write_state-IsSound h missing s s tt (fresh-AllConsistent now (by_id plan.tasks))
  init-IsSound now plan file f = f

  sweep-IsSound :
      (now lease : ℕ) (pid_exists : ℕ → Bool) (file : StateFile)
      → IsSound h file
      → IsSound h (recover_abandoned h now lease pid_exists file).1
  unfolding recover_abandoned
  sweep-IsSound now lease pid_exists file f =
      commit_recovery-IsSound h file (read_state h file >>= sweep_state now lease pid_exists) f
        λ n s' e.
          let (s, readable, made) =
            >>=-eq-ok (read_state h file) (sweep_state now lease pid_exists) e in
          let (w, same) = sweep_state-Swept now lease pid_exists s made in
          Swept-AllConsistent now lease pid_exists w (read_state-AllConsistent h file s f readable)

  -- Every operation, whether it returns or raises, leaves a sound file sound.
  pub run_op-IsSound : (op : Op) (file : StateFile) → IsSound h file → IsSound h (run_op h op file)
  unfolding run_op transition heartbeat set_worker_pid
  run_op-IsSound (init now plan) file f = init-IsSound now plan file f
  run_op-IsSound (move now pid task_id a) file f =
      update_state-IsSound h file _
        (step-AllConsistent state_integrity task_id (λ r. transition_record now pid r a) (λ r. r)
          (λ r r' e c.
            let (p, made) = Permitted-of_ok now pid r a e in
            subst IsConsistent (sym made) (next_record-IsConsistent now pid r a c p)))
        f
  run_op-IsSound (beat now task_id) file f =
      update_state-IsSound h file _
        (step-AllConsistent key_error task_id (heartbeat_record now) (λ r. tt)
          (λ r r' e c. heartbeat_record-IsConsistent now r e c))
        f
  run_op-IsSound (assign task_id worker) file f =
      update_state-IsSound h file _
        (step-AllConsistent key_error task_id (worker_record worker) (λ r. tt)
          (λ r r' e c. worker_record-IsConsistent worker r e c))
        f
  run_op-IsSound (sweep now lease pid_exists) file f = sweep-IsSound now lease pid_exists file f

  run_ops-IsSound_from :
      (ops : List Op) (file : StateFile) → IsSound h file → IsSound h (run_ops h ops file)
  unfolding run_ops
  run_ops-IsSound_from [] file f = f
  run_ops-IsSound_from (op ∷ ops) file f =
      run_ops-IsSound_from ops (run_op h op file) (run_op-IsSound op file f)

  -- From a missing file, after any operations of any processes in any order, the file is still
  -- missing or can be read, and every record in it is consistent.
  pub run_ops-IsSound : (ops : List Op) → IsSound h (run_ops h ops missing)
  run_ops-IsSound ops = run_ops-IsSound_from ops missing tt
