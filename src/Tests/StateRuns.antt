-- ===== src/Tests/StateRuns.antt =====
-- Runs of the state store of runner/state.py on one task, and its theorems at these runs.
use schema_guard.Base.{
  ℕ, String, ◌≡◌, refl, ◌⊎◌, inl, inr, Bool, true, false, Option, none, some, List, [], ◌∷◌, arith,
  ok, err, invalid_transition,
}
use schema_guard.Base.Dict.{lookup}
use schema_guard.Cache.Identity.{is_sha256}
use schema_guard.Runner.Record.{
  TaskStatus, is_portable_path, pending, running, TaskStateRecord, SchedulerState, state_is_valid,
}
use schema_guard.Runner.Transition.{next_record}
use schema_guard.Runner.Transition.Edges.{Permitted, start, finish, recover}
use schema_guard.Runner.Transition.Invariant.{IsConsistent}
use schema_guard.Runner.State.{
  missing, holds, initialize, transition, heartbeat, recover_abandoned, store_task,
}
use schema_guard.Runner.State.Steps.{Op, init, move, beat, assign, sweep, run_op, run_ops}
use schema_guard.Runner.State.Sweep.{Swept}
use schema_guard.Runner.State.Sound.{IsSound, run_ops-IsSound}
use schema_guard.Runner.State.Lives.{
  Grows, IsInvalidated, run_ops-Grows, run_ops-settled, run_ops-complete,
}
use schema_guard.Runner.State.Recovery.{recover_abandoned-Swept}
use schema_guard.Runner.State.Outcome.{op_error, run_op_error}
use schema_guard.Runner.State.Accepts.{IsStorable, transition_returns, transition_refused}
use schema_guard.Tests.StoreRuns.{sample_id_lem}
use schema_guard.Runner.State.Progress.{Completes, task_completes}
use schema_guard.Runner.State.Lease.{recover-held, heartbeat-recover}
use schema_guard.Tests.Samples.{
  sample_id, sample_digest, sample_plan, request, published, open_attempt, pending_record,
  running_record, blocked_record, complete_record, state_of, ones,
}

-- A run of two processes: start, heartbeat, publish, a late heartbeat, a sweep.
abbrev sample_run : List Op
sample_run =
    init 10 sample_plan
    ∷ move 20 7 sample_id (request running)
    ∷ beat 25 sample_id
    ∷ assign sample_id 9
    ∷ move 30 7 sample_id published
    ∷ beat 35 sample_id
    ∷ sweep 900 60 (λ p. false)
    ∷ []

sample_run_started :
    run_ops sample_digest (init 10 sample_plan ∷ []) missing ≡ holds (state_of pending_record)
unfolding run_ops initialize
sample_run_started = refl

sample_run_running :
    run_ops sample_digest (init 10 sample_plan ∷ move 20 7 sample_id (request running) ∷ []) missing
    ≡ holds (state_of running_record)
unfolding run_ops initialize transition
sample_run_running = refl

running-IsConsistent : IsConsistent running_record
running-IsConsistent = record {
  walk = (refl, start, refl);
  numbered = (refl, tt);
  open_at_end = (refl, refl);
  one_attempt_per_start = refl;
  zoned = (refl, tt);
}

pub running-IsSound : IsSound sample_digest (holds (state_of running_record))
unfolding state_is_valid
running-IsSound = (refl, (running-IsConsistent, tt))

pub found_in : (r : TaskStateRecord) → lookup sample_id (state_of r).tasks ≡ some r
unfolding lookup
found_in r = refl

run_ops-IsSound_example : IsSound sample_digest (run_ops sample_digest sample_run missing)
run_ops-IsSound_example = run_ops-IsSound sample_digest sample_run

run_ops-Grows_example :
    (t : SchedulerState) × (run_ops sample_digest sample_run (holds (state_of running_record))
      ≡ holds t)
    × (r' : TaskStateRecord) × (lookup sample_id t.tasks ≡ some r')
    × Grows running_record r'
run_ops-Grows_example =
    run_ops-Grows sample_digest sample_run (state_of running_record) sample_id running_record
      (found_in running_record)

run_ops-settled_example :
    (t : SchedulerState) × (run_ops sample_digest sample_run (holds (state_of blocked_record))
      ≡ holds t)
    × (lookup sample_id t.tasks ≡ some blocked_record)
run_ops-settled_example =
    run_ops-settled sample_digest sample_run (state_of blocked_record) sample_id blocked_record
      (found_in blocked_record) (inl refl)

run_ops-complete_example :
    (t : SchedulerState) × (run_ops sample_digest sample_run (holds (state_of complete_record))
      ≡ holds t)
    × (r' : TaskStateRecord) × (lookup sample_id t.tasks ≡ some r')
    × ((r' ≡ complete_record) ⊎ IsInvalidated complete_record r')
run_ops-complete_example =
    run_ops-complete sample_digest sample_run (state_of complete_record) sample_id complete_record
      (found_in complete_record) refl

recover_abandoned-Swept_example :
    (n : ℕ) × (t : SchedulerState) × (recover_abandoned sample_digest 900 60
        (λ p. false)
        (holds (state_of running_record))
      ≡ (ok n, holds t))
    × Swept 900 60 (λ p. false) (state_of running_record).tasks n t.tasks
    × (t ≡ record (state_of running_record) { tasks = t.tasks })
recover_abandoned-Swept_example =
    recover_abandoned-Swept sample_digest 900 60 (λ p. false) (state_of running_record)
      running-IsSound

late_heartbeat :
    op_error sample_digest (beat 35 sample_id) (holds (state_of complete_record))
    ≡ some invalid_transition
unfolding op_error heartbeat
late_heartbeat = refl

run_op_error_example :
    run_op sample_digest (beat 35 sample_id) (holds (state_of complete_record))
    ≡ holds (state_of complete_record)
run_op_error_example =
    run_op_error sample_digest (beat 35 sample_id) (holds (state_of complete_record))
      invalid_transition late_heartbeat

published-IsStorable : IsStorable 7 published
unfolding is_portable_path is_sha256
published-IsStorable = record {
  positive = omega arith;
  resource = refl;
  artifact = λ e. ("aa/entry/payload.bin", ones, refl, refl, refl, refl);
}

transition_returns_example :
    transition sample_digest 30 7 sample_id published (holds (state_of running_record)) ≡ (
      ok (next_record 30 7 running_record published),
      holds (
          store_task sample_id
            (next_record 30 7 running_record published)
            (state_of running_record)),
    )
transition_returns_example =
    transition_returns sample_digest 30 7 sample_id published (state_of running_record)
      running_record running-IsSound (found_in running_record) finish published-IsStorable

needs_reason :
    {why : Option String} {flag : Bool} {s t : TaskStatus}
    → Permitted why flag s t
    → why ≡ none
    → s ≡ running
    → ¬ (t ≡ pending)
needs_reason (recover w) e p q = ground arith
needs_reason start e p q = ground arith
needs_reason p e q r = ground arith

no_way_back : ¬ Permitted none false running pending
no_way_back p = needs_reason p refl refl refl

transition_refused_example :
    transition sample_digest 30 7 sample_id (request pending) (holds (state_of running_record))
    ≡ (err invalid_transition, holds (state_of running_record))
transition_refused_example =
    transition_refused sample_digest 30 7 sample_id (request pending) (state_of running_record)
      running_record running-IsSound (found_in running_record) no_way_back

recover-held_example :
    (n : ℕ) × (t : SchedulerState) × (recover_abandoned sample_digest 900 60
        (λ p. true)
        (holds (state_of running_record))
      ≡ (ok n, holds t))
    × (lookup sample_id t.tasks ≡ some running_record)
recover-held_example =
    recover-held sample_digest 900 60 (λ p. true) (state_of running_record) running-IsSound
      sample_id running_record (found_in running_record) open_attempt refl (inr (7, inl refl, refl))

heartbeat_returned :
    heartbeat sample_digest 50 sample_id (holds (state_of running_record))
    ≡ (ok tt, run_op sample_digest (beat 50 sample_id) (holds (state_of running_record)))
unfolding heartbeat run_op
heartbeat_returned = refl

heartbeat-recover_example :
    (s : SchedulerState) × (r : TaskStateRecord) × (run_op sample_digest
        (beat 50 sample_id)
        (holds (state_of running_record))
      ≡ holds s)
    × (lookup sample_id s.tasks ≡ some r)
    × (n : ℕ) × (t : SchedulerState) × (recover_abandoned sample_digest 100 60
          (λ p. false)
          (run_op sample_digest (beat 50 sample_id) (holds (state_of running_record)))
        ≡ (ok n, holds t))
    × (lookup sample_id t.tasks ≡ some r)
heartbeat-recover_example =
    heartbeat-recover sample_digest 50 100 60 (λ p. false) sample_id
      (holds (state_of running_record)) running-IsSound heartbeat_returned (omega arith)

portable_lem : is_portable_path "artifacts/one.bin" ≡ true
unfolding is_portable_path
portable_lem = refl

task_completes_example :
    Completes sample_digest 90 7
      (omega arith)
      sample_id
      "artifacts/one.bin"
      sample_id
      portable_lem
      sample_id_lem
      (state_of running_record)
task_completes_example =
    task_completes sample_digest 90 7 (omega arith) sample_id "artifacts/one.bin" sample_id
      portable_lem sample_id_lem (state_of running_record) running_record running-IsSound
      (found_in running_record) λ settled. elim settled [ inl e ↦ cc | inr e ↦ cc ]
