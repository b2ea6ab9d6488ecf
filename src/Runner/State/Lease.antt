-- ===== src/Runner/State/Lease.antt =====
-- The lease of a running task in runner/state.py: neither a task that has just sent its heartbeat nor
-- one with a process that still exists is taken away by `recover_abandoned`.
use schema_guard.Base.{
  ℕ, ◌+◌, ◌≤◌, String, ◌≡◌, refl, sym, subst, ap, ◌∙◌, ◌⊎◌, inl, inr, Bool, true, some, arith, last,
  ok, key_error, eq_refl,
}
use schema_guard.Base.Dict.{lookup, lookup-insert}
use schema_guard.Hashing.{Digest}
use schema_guard.Runner.Record.{TaskAttempt, TaskStateRecord, SchedulerState}
use schema_guard.Runner.Transition.{heartbeat_record}
use schema_guard.Runner.Transition.Keeps.{last-heartbeat_record}
use schema_guard.Runner.Transition.Abandoned.{IsAbandoned}
use schema_guard.Runner.State.{
  StateFile, holds, heartbeat, recover_abandoned, step_task, store_task, update_state,
}
use schema_guard.Runner.State.Steps.{beat as beat_op, run_op, step_inv}
use schema_guard.Runner.State.Sound.{IsSound, run_op-IsSound}
use schema_guard.Runner.State.History.{Swept-lookup}
use schema_guard.Runner.State.Recovery.{recover_abandoned-Swept}
use schema_guard.Runner.State.Outcome.{update_state_ok}

module _ (h : Digest) (now lease : ℕ) (pid_exists : ℕ → Bool) (s : SchedulerState)
    (sound : IsSound h (holds s)) (k : String) (r : TaskStateRecord)
    (found : lookup k s.tasks ≡ some r) where
  -- What `recover_abandoned` leaves under a key.
  recover-kept :
      ¬ IsAbandoned now lease pid_exists r
      → (n : ℕ) × (t : SchedulerState) × (recover_abandoned h now lease pid_exists (holds s)
          ≡ (ok n, holds t))
        × (lookup k t.tasks ≡ some r)
  recover-kept kept =
      let (n, t, ran, w, same) = recover_abandoned-Swept h now lease pid_exists s sound in
      elim (Swept-lookup now lease pid_exists w k r found) [
        | inl (gone, there) ↦ absurd (kept gone)
        | inr (stays, there) ↦ (n, t, ran, there)
      ]

  module _ (x : TaskAttempt) (is_last : last r.attempts ≡ some x) where
    same_last : (a : IsAbandoned now lease pid_exists r) → a.attempt ≡ x
    same_last a = ground (arith, a.is_last)

    -- On a sound file, a recovery leaves a task as it is while the lease of its last attempt has
    -- not run out.
    pub recover-unexpired :
        now ≤ x.heartbeat_at.instant + lease
        → (n : ℕ) × (t : SchedulerState) × (recover_abandoned h now lease pid_exists (holds s)
            ≡ (ok n, holds t))
          × (lookup k t.tasks ≡ some r)
    recover-unexpired fresh = recover-kept (λ a. let q = same_last a in ground arith)

    -- On a sound file, a recovery leaves a task as it is if the owner or the worker of its last
    -- attempt is a process that exists.
    recover-alive :
        (p : ℕ)
        → (x.owner_pid ≡ some p) ⊎ (x.worker_pid ≡ some p)
        → pid_exists p ≡ true
        → (n : ℕ) × (t : SchedulerState) × (recover_abandoned h now lease pid_exists (holds s)
            ≡ (ok n, holds t))
          × (lookup k t.tasks ≡ some r)
    recover-alive p which alive = recover-kept λ a. let q = same_last a in ground arith

    -- On a sound file, a recovery leaves a task as it is while the lease of its last attempt has
    -- not run out, and also later if the owner or the worker of that attempt is a process that
    -- exists.
    pub recover-held :
        (now ≤ x.heartbeat_at.instant + lease)
          ⊎ ((p : ℕ) × ((x.owner_pid ≡ some p) ⊎ (x.worker_pid ≡ some p)) × (pid_exists p ≡ true))
        → (n : ℕ) × (t : SchedulerState) × (recover_abandoned h now lease pid_exists (holds s)
            ≡ (ok n, holds t))
          × (lookup k t.tasks ≡ some r)
    recover-held (inl fresh) = recover-unexpired fresh
    recover-held (inr (p, which, alive)) = recover-alive p which alive

heartbeat_lem :
    (h : Digest) (now : ℕ) (k : String) (file : StateFile)
    → heartbeat h now k file
      ≡ update_state h file (step_task key_error k (heartbeat_record now) (λ r. tt))
unfolding heartbeat
heartbeat_lem h now k file = refl

heartbeat-IsSound :
    (h : Digest) (now : ℕ) (k : String) (file : StateFile) {file' : StateFile}
    → heartbeat h now k file ≡ (ok tt, file')
    → IsSound h file
    → IsSound h file'
unfolding run_op
heartbeat-IsSound h now k file e sound =
    subst (IsSound h) (ap (λ p. p.1) e) (run_op-IsSound h (beat_op now k) file sound)

pub lookup-store_task :
    (k : String) (r : TaskStateRecord) (s : SchedulerState)
    → lookup k (store_task k r s).tasks ≡ some r
unfolding store_task
lookup-store_task k r s = rw (lookup-insert, eq_refl)

-- On a sound file, after a heartbeat that returned, a recovery within the lease leaves the task as
-- the heartbeat left it.
pub heartbeat-recover :
    (h : Digest) (now later lease : ℕ) (pid_exists : ℕ → Bool) (k : String) (file : StateFile)
    {file' : StateFile}
    → IsSound h file
    → heartbeat h now k file ≡ (ok tt, file')
    → later ≤ now + lease
    → (s : SchedulerState) × (r : TaskStateRecord) × (file' ≡ holds s)
      × (lookup k s.tasks ≡ some r)
      × (n : ℕ) × (t : SchedulerState) × (recover_abandoned h later lease pid_exists file'
          ≡ (ok n, holds t))
      × (lookup k t.tasks ≡ some r)
heartbeat-recover h now later lease pid_exists k file sound e fresh =
    let (s, s', held, changed, wrote) =
      update_state_ok h file (step_task key_error k (heartbeat_record now) (λ r. tt))
        (sym (heartbeat_lem h now k file) ∙ e) in
    let (r, r', found, stepped, _, stored) =
      step_inv key_error k (heartbeat_record now) (λ r. tt) s changed in
    let (x, is_last, at_now) = last-heartbeat_record now r stepped in
    let there : lookup k s'.tasks ≡ some r' = rw stored (lookup-store_task k r' s) in
    let sound' : IsSound h (holds s') =
      subst (IsSound h) wrote (heartbeat-IsSound h now k file e sound) in
    let (n, t, ran, kept) =
      recover-unexpired h later lease pid_exists s' sound' k r' there x is_last (omega arith) in
    (s', r', wrote, there, n, t, ap (recover_abandoned h later lease pid_exists) wrote ∙ ran, kept)
