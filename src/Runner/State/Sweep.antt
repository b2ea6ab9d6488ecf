-- ===== src/Runner/State/Sweep.antt =====
-- The loop of `recover_abandoned` in runner/state.py, as a relation between the records before and
-- after it.
use schema_guard.Base.{
  ℕ, suc, String, ◌≡◌, subst, Bool, Option, none, some, [], ◌∷◌, arith, ok, >>=-eq-ok, ok-injective,
}
use schema_guard.Base.Dict.{Dict}
use schema_guard.Runner.Record.{TaskStateRecord, SchedulerState}
use schema_guard.Runner.Transition.{recover_record, recovered_record}
use schema_guard.Runner.Transition.Abandoned.{IsAbandoned, IsAbandoned-recover, recover-IsAbandoned}
use schema_guard.Runner.State.{keep_record, recover_tasks, sweep_state}

-- What the loop of `recover_abandoned` does: the abandoned tasks are recovered and counted, and the
-- others stay as they are.
pub data Swept (now lease : ℕ) (pid_exists : ℕ → Bool)
    : Dict TaskStateRecord → ℕ → Dict TaskStateRecord → Type 0 where
  done : Swept now lease pid_exists [] 0 []
  taken :
      {k : String} {r : TaskStateRecord} {d d' : Dict TaskStateRecord} {n : ℕ}
      → IsAbandoned now lease pid_exists r
      → Swept now lease pid_exists d n d'
      → Swept now lease pid_exists ((k, r) ∷ d) (suc n) ((k, recovered_record now r) ∷ d')
  kept :
      {k : String} {r : TaskStateRecord} {d d' : Dict TaskStateRecord} {n : ℕ}
      → ¬ IsAbandoned now lease pid_exists r
      → Swept now lease pid_exists d n d'
      → Swept now lease pid_exists ((k, r) ∷ d) n ((k, r) ∷ d')

module _ (now lease : ℕ) (pid_exists : ℕ → Bool) where
  keep_record-Swept :
      (k : String) (r : TaskStateRecord) (x : Option TaskStateRecord) (d : Dict TaskStateRecord)
      (m : ℕ) (rest : Dict TaskStateRecord)
      → recover_record now lease pid_exists r ≡ ok x
      → Swept now lease pid_exists d m rest
      → Swept now lease pid_exists
          ((k, r) ∷ d)
          (keep_record k r x (m, rest)).0
          (keep_record k r x (m, rest)).1
  unfolding keep_record
  keep_record-Swept k r none d m rest e w =
      kept (λ a. cc (IsAbandoned-recover now lease pid_exists r a, e)) w
  keep_record-Swept k r (some r') d m rest e w =
      let (a, p) = recover-IsAbandoned now lease pid_exists r e in rw p (taken a w)

  pub recover_tasks-Swept :
      (d : Dict TaskStateRecord) (n : ℕ) (d' : Dict TaskStateRecord)
      → recover_tasks now lease pid_exists d ≡ ok (n, d')
      → Swept now lease pid_exists d n d'
  unfolding recover_tasks
  recover_tasks-Swept [] n d' h =
      subst (λ y. Swept now lease pid_exists [] y.0 y.1) (ok-injective h) done
  recover_tasks-Swept ((k, r) ∷ d) n d' h =
      let (x, recovered, rest) = >>=-eq-ok (recover_record now lease pid_exists r) _ h in
      let (swept, looped, done') = >>=-eq-ok (recover_tasks now lease pid_exists d) _ rest in
      let w =
        keep_record-Swept k r x d swept.0 swept.1 recovered
          (recover_tasks-Swept d swept.0 swept.1 looped) in
      subst (λ y. Swept now lease pid_exists ((k, r) ∷ d) y.0 y.1) (ok-injective done') w

  -- The body of `recover_abandoned` sweeps the records and leaves the rest of the state alone.
  pub sweep_state-Swept :
      (s : SchedulerState) {n : ℕ} {s' : SchedulerState}
      → sweep_state now lease pid_exists s ≡ ok (n, s')
      → Swept now lease pid_exists s.tasks n s'.tasks × (s' ≡ record s { tasks = s'.tasks })
  unfolding sweep_state
  sweep_state-Swept s {n} {s'} h =
      let run : recover_tasks now lease pid_exists s.tasks ≡ ok (n, s'.tasks) = ground arith in
      (recover_tasks-Swept s.tasks n s'.tasks run, ground arith)
