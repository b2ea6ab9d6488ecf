-- ===== src/Runner/Transition/Keeps.antt =====
-- The operations of a running task's lease keep the invariant of its record: the heartbeat, the
-- worker's process number, and the recovery of an abandoned attempt.
use schema_guard.Base.{
  ℕ, ◌≡◌, refl, inl, inr, true, some, List, [], ◌∷◌, arith, last, map_last, length-map_last,
  last-map_last, last_of_cons, Bool-cases, ok, is_none,
}
use schema_guard.Runner.Record.{TaskStatus, pending, running, TaskAttempt, TaskStateRecord}
use schema_guard.Runner.Transition.{
  is_running, has_attempts, is_live, beat, assign_worker, heartbeat_record, worker_record,
  close_abandoned, recovered_record, abandoned_lease_recovery,
}
use schema_guard.Runner.Transition.Edges.{recover}
use schema_guard.Runner.Transition.Invariant.{
  IsConsistent, IsZoned, All-map_last, Walk-append, starts-append, Numbered-map_last,
  OpenAtEnd-close, OpenAtEnd-keep,
}

running_of_test : (s : TaskStatus) → is_running s ≡ true → s ≡ running
running_of_test running h = refl
running_of_test _ h = ground arith

-- An update of the last attempt that leaves its number, its state and its end alone.
map_last-IsConsistent :
    (f : TaskAttempt → TaskAttempt)
    → ((x : TaskAttempt) → (f x).attempt_number ≡ x.attempt_number)
    → ((x : TaskAttempt)
        → (is_running (f x).state ≡ is_running x.state)
          × (is_none (f x).ended_at ≡ is_none x.ended_at))
    → ((x : TaskAttempt) → IsZoned x → IsZoned (f x))
    → (r r' : TaskStateRecord) → r'.state ≡ r.state
    → r'.attempts ≡ map_last f r.attempts
    → r'.transitions ≡ r.transitions
    → IsConsistent r
    → IsConsistent r'
map_last-IsConsistent f number keep zone r r' s a t c = record {
  walk = rw (s, t) c.walk;
  numbered = rw a (Numbered-map_last f number 1 r.attempts c.numbered);
  open_at_end = rw (s, a) (OpenAtEnd-keep f keep (is_running r.state) r.attempts c.open_at_end);
  one_attempt_per_start = rw (a, t, length-map_last) c.one_attempt_per_start;
  zoned = rw a (All-map_last IsZoned f zone r.attempts c.zoned);
}

pub heartbeat_record-IsConsistent :
    (now : ℕ) (r : TaskStateRecord) {r' : TaskStateRecord}
    → heartbeat_record now r ≡ ok r'
    → IsConsistent r
    → IsConsistent r'
unfolding heartbeat_record beat
heartbeat_record-IsConsistent now r {r'} h c =
    map_last-IsConsistent (beat now) (λ x. refl) (λ x. (refl, refl)) (λ x z. refl) r r'
      (ground arith) (ground arith) (ground arith) c

pub worker_record-IsConsistent :
    (worker : ℕ) (r : TaskStateRecord) {r' : TaskStateRecord}
    → worker_record worker r ≡ ok r'
    → IsConsistent r
    → IsConsistent r'
unfolding worker_record assign_worker
worker_record-IsConsistent worker r {r'} h c =
    map_last-IsConsistent (assign_worker worker) (λ x. refl) (λ x. (refl, refl)) (λ x z. z) r r'
      (ground arith) (ground arith) (ground arith) c

pub recovered_record-IsConsistent :
    (now : ℕ) (r : TaskStateRecord)
    → is_running r.state ≡ true
    → IsConsistent r
    → IsConsistent (recovered_record now r)
unfolding recovered_record close_abandoned
recovered_record-IsConsistent now r live c = record {
  walk =
      Walk-append pending r.transitions _ (rw (running_of_test r.state live) at c.walk)
        (recover refl);
  numbered =
      Numbered-map_last (close_abandoned now (some abandoned_lease_recovery)) (λ x. refl) 1
        r.attempts c.numbered;
  open_at_end =
      OpenAtEnd-close (close_abandoned now (some abandoned_lease_recovery)) (λ x. (refl, refl))
        (is_running r.state) r.attempts c.open_at_end;
  one_attempt_per_start =
      rw (starts-append, length-map_last, c.one_attempt_per_start) (omega arith);
  zoned =
      All-map_last IsZoned (close_abandoned now (some abandoned_lease_recovery)) (λ x z. refl)
        r.attempts c.zoned;
}

-- A task that is running with an attempt has a last attempt.
last_of_live :
    (r : TaskStateRecord) → is_live r ≡ true → (x : TaskAttempt) × (last r.attempts ≡ some x)
unfolding is_live
last_of_live r live = of_attempts r.attempts (ground arith)
  where
    of_attempts :
        (xs : List TaskAttempt) → has_attempts xs ≡ true → (x : TaskAttempt) × (last xs ≡ some x)
    of_attempts [] e = absurd (cc)
    of_attempts (x ∷ xs) e = last_of_cons x xs

-- After a heartbeat the last attempt has the heartbeat's time.
pub last-heartbeat_record :
    (now : ℕ) (r : TaskStateRecord) {r' : TaskStateRecord}
    → heartbeat_record now r ≡ ok r'
    → (x : TaskAttempt) × (last r'.attempts ≡ some x) × (x.heartbeat_at.instant ≡ now)
unfolding heartbeat_record beat
last-heartbeat_record now r {r'} e = elim (Bool-cases (is_live r)) [
  | inl live ↦
      let (x, found) = last_of_live r live in
      (beat now x, ground (arith, last-map_last (beat now) r.attempts found), refl)
  | inr dead ↦ absurd (ground arith)
]
