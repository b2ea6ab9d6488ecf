-- ===== src/Runner/Transition/Abandoned.antt =====
-- When `recover_abandoned` recovers a task, said of the record's last attempt and of the processes,
-- and the code's test against it.
use schema_guard.Base.{
  ℕ, ◌+◌, ◌<◌, ◌≡◌, refl, inl, inr, Bool, true, false, not, Option, none, some, arith, last,
  Bool-cases, Option-cases, ok, optionally,
}
use schema_guard.Runner.Record.{TaskAttempt, TaskStateRecord}
use schema_guard.Runner.Transition.{is_running, recovered_record, recover_record, is_abandoned}

-- No process of the given number exists, if there is a number.
abbrev pub NoProcess : (ℕ → Bool) → Option ℕ → Type 0
NoProcess pid_exists none = Unit
NoProcess pid_exists (some p) = pid_exists p ≡ false

-- The lease has run out and both processes are gone. The heartbeat has a time zone.
pub record IsGone (now lease : ℕ) (pid_exists : ℕ → Bool) (x : TaskAttempt) : Type 0 where
  pub aware : x.heartbeat_at.aware ≡ true
  pub expired : x.heartbeat_at.instant + lease < now
  pub owner : NoProcess pid_exists x.owner_pid
  pub worker : NoProcess pid_exists x.worker_pid

module _ (now lease : ℕ) (pid_exists : ℕ → Bool) where
  no_process :
      (p : Option ℕ) → optionally (λ n. not (pid_exists n)) p ≡ true → NoProcess pid_exists p
  no_process none h = tt
  no_process (some p) h = ground arith

  no_pid_test :
      (p : Option ℕ) → NoProcess pid_exists p → optionally (λ n. not (pid_exists n)) p ≡ true
  no_pid_test none h = refl
  no_pid_test (some p) h = ground arith

  is_abandoned-IsGone :
      (x : TaskAttempt)
      → is_abandoned now lease pid_exists x ≡ ok true
      → IsGone now lease pid_exists x
  unfolding is_abandoned
  is_abandoned-IsGone x h = record {
    aware = ground arith;
    expired = ground arith;
    owner = no_process x.owner_pid (ground arith);
    worker = no_process x.worker_pid (ground arith);
  }

  IsGone-is_abandoned :
      (x : TaskAttempt)
      → IsGone now lease pid_exists x
      → is_abandoned now lease pid_exists x ≡ ok true
  unfolding is_abandoned
  IsGone-is_abandoned x g =
      ground (arith, no_pid_test x.owner_pid g.owner, no_pid_test x.worker_pid g.worker)

  module _ (r : TaskStateRecord) where
    -- A running task whose last attempt is gone.
    pub record IsAbandoned : Type 0 where
      pub live : is_running r.state ≡ true
      pub attempt : TaskAttempt
      pub is_last : last r.attempts ≡ some attempt
      pub gone : IsGone now lease pid_exists attempt

    pub IsAbandoned-recover :
        IsAbandoned → recover_record now lease pid_exists r ≡ ok (some (recovered_record now r))
    unfolding recover_record
    IsAbandoned-recover a = ground (arith, IsGone-is_abandoned a.attempt a.gone, a.is_last, a.live)

    pub recover-IsAbandoned :
        {r' : TaskStateRecord}
        → recover_record now lease pid_exists r ≡ ok (some r')
        → IsAbandoned × (r' ≡ recovered_record now r)
    unfolding recover_record
    recover-IsAbandoned {r'} h = elim (Bool-cases (is_running r.state)) [
      | inl live ↦ elim (Option-cases (last r.attempts)) [
        | inl nothing ↦ absurd (ground arith)
        | inr (x, found) ↦ (
          record {
            live = live;
            attempt = x;
            is_last = found;
            gone = is_abandoned-IsGone x (ground arith);
          },
          ground arith,
        )
      ]
      | inr idle ↦ absurd (ground arith)
    ]
