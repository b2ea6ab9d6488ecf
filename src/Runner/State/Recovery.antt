-- ===== src/Runner/State/Recovery.antt =====
-- `recover_abandoned` of runner/state.py on a sound file never raises, and recovers exactly the
-- abandoned tasks.
use schema_guard.Base.{
  ℕ, String, ◌≡◌, refl, sym, subst, ap, inl, inr, Bool, true, Option, some, [], ◌∷◌, arith, all,
  All, last, last-All, all-map_last, ok, err, Bool-cases, Option-cases, eqb, returns_of_ne_err,
  Error, ◌≢◌,
}
use schema_guard.Base.Dict.{Dict, AllValues}
use schema_guard.Hashing.{Digest}
use schema_guard.Runner.Record.{
  TaskAttempt, TaskStateRecord, SchedulerState, attempt_is_valid, artifact_state_is_valid,
  record_is_valid, state_is_valid,
}
use schema_guard.Runner.Transition.{
  is_running, close_abandoned, recovered_record, recover_record, is_abandoned,
  abandoned_lease_recovery,
}
use schema_guard.Runner.Transition.Invariant.{IsConsistent, IsZoned}
use schema_guard.Runner.State.{
  holds, read_state, write_state, recover_tasks, sweep_state, commit_recovery, recover_abandoned,
}
use schema_guard.Runner.State.Sweep.{Swept, done, taken, kept, sweep_state-Swept}
use schema_guard.Runner.State.Sound.{IsSound}

close_abandoned-valid :
    (now : ℕ) (why : Option String) (x : TaskAttempt)
    → attempt_is_valid x ≡ true
    → attempt_is_valid (close_abandoned now why x) ≡ true
unfolding attempt_is_valid close_abandoned
close_abandoned-valid now why x v = v

-- A running record has no artifact, so a recovered one is valid.
recovered_record-valid :
    (h : Digest) (now : ℕ) (r : TaskStateRecord)
    → is_running r.state ≡ true
    → record_is_valid h r ≡ true
    → record_is_valid h (recovered_record now r) ≡ true
unfolding record_is_valid recovered_record artifact_state_is_valid
recovered_record-valid h now r live v = ground (
  arith,
  all-map_last attempt_is_valid (close_abandoned now (some abandoned_lease_recovery))
      (close_abandoned-valid now (some abandoned_lease_recovery)) r.attempts,
)

module _ (now lease : ℕ) (pid_exists : ℕ → Bool) where
  Swept-valid :
      (h : Digest) {d : Dict TaskStateRecord} {n : ℕ} {d' : Dict TaskStateRecord}
      → Swept now lease pid_exists d n d'
      → all (λ e. record_is_valid h e.1) d ≡ true
      → all (λ e. record_is_valid h e.1) d' ≡ true
  Swept-valid h done v = refl
  Swept-valid h (taken {r = r} a w) v =
      ground (arith, recovered_record-valid h now r a.live, Swept-valid h w)
  Swept-valid h (kept a w) v = ground (arith, Swept-valid h w)

  Swept-zero :
      {d : Dict TaskStateRecord} {n : ℕ} {d' : Dict TaskStateRecord}
      → Swept now lease pid_exists d n d'
      → n ≡ 0
      → d' ≡ d
  Swept-zero done e = refl
  Swept-zero (taken a w) e = absurd (omega arith)
  Swept-zero (kept {k = k} {r = r} a w) e = ap (◌∷◌ (k, r)) (Swept-zero w e)

  -- The lease of a task with zones on its heartbeats can be compared with the clock.
  recover_record-ne-err :
      (r : TaskStateRecord) (e : Error)
      → All IsZoned r.attempts
      → recover_record now lease pid_exists r ≢ err e
  unfolding recover_record is_abandoned
  recover_record-ne-err r e z h = elim (Option-cases (last r.attempts)) [
    | inl nothing ↦ ground arith
    | inr (x, found) ↦ ground (arith, last-All IsZoned r.attempts z found)
  ]

  recover_tasks-ne-err :
      (d : Dict TaskStateRecord) (e : Error)
      → AllValues IsConsistent d
      → recover_tasks now lease pid_exists d ≢ err e
  unfolding recover_tasks
  recover_tasks-ne-err [] e c h = cc
  recover_tasks-ne-err ((k, r) ∷ d) e c h =
      let (x, recovered) =
        returns_of_ne_err (recover_record now lease pid_exists r)
          (λ f. recover_record-ne-err r f c.0.zoned) in
      let (y, swept) =
        returns_of_ne_err (recover_tasks now lease pid_exists d)
          (λ f. recover_tasks-ne-err d f c.1) in
      ground arith

module _ (h : Digest) (now lease : ℕ) (pid_exists : ℕ → Bool) (s : SchedulerState)
    (sound : IsSound h (holds s)) where
  sweep_returns : (n : ℕ) × (t : SchedulerState) × (sweep_state now lease pid_exists s ≡ ok (n, t))
  unfolding sweep_state
  sweep_returns =
      let (swept, looped) =
        returns_of_ne_err (recover_tasks now lease pid_exists s.tasks)
          (λ e. recover_tasks-ne-err now lease pid_exists s.tasks e sound.1) in
      (swept.0, record s { tasks = swept.1 }, rw looped refl)

  Swept-IsStorable :
      {n : ℕ} (t : SchedulerState)
      → Swept now lease pid_exists s.tasks n t.tasks
      → t ≡ record s { tasks = t.tasks }
      → state_is_valid h t ≡ true
  unfolding state_is_valid
  Swept-IsStorable t w same =
      subst (λ x. state_is_valid h x ≡ true) (sym same)
        (ground (arith, sound.0, Swept-valid now lease pid_exists h w))

  commit_sweep :
      (n : ℕ) (t : SchedulerState)
      → Swept now lease pid_exists s.tasks n t.tasks
      → t ≡ record s { tasks = t.tasks }
      → commit_recovery h (holds s) (ok (n, t)) ≡ (ok n, holds t)
  unfolding commit_recovery write_state state_is_valid
  commit_sweep n t w same = elim (Bool-cases (eqb n 0)) [
    | inl nothing ↦
        let z : n ≡ 0 = ground arith in let p = Swept-zero now lease pid_exists w z in ground arith
    | inr some' ↦ rw some' (rw (Swept-IsStorable t w same))
  ]

  -- On a sound file `recover_abandoned` returns. The file then holds the same state but for the
  -- records that were abandoned, each of which is back in PENDING with its last attempt closed, and
  -- their number is the result.
  pub recover_abandoned-Swept :
      (n : ℕ) × (t : SchedulerState) × (recover_abandoned h now lease pid_exists (holds s)
        ≡ (ok n, holds t))
      × Swept now lease pid_exists s.tasks n t.tasks
      × (t ≡ record s { tasks = t.tasks })
  unfolding recover_abandoned read_state
  recover_abandoned-Swept =
      let (n, t, made) = sweep_returns in
      let (w, same) = sweep_state-Swept now lease pid_exists s made in
      (n, t, rw (sound.0, made) (commit_sweep n t w same), w, same)
