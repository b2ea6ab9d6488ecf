-- ===== src/Runner/State/History.antt =====
-- How the record of one task evolves under the operations of runner/state.py: every operation makes
-- at most one step of the task's life, and touches no other task.
use schema_guard.Base.{
  ℕ, String, ◌≡◌, refl, sym, subst, ap, ◌⊎◌, inl, inr, Bool, true, some, ◌∷◌, arith, Result, ok,
  err, Error, key_error, state_integrity, ◌>>=◌, >>=-eq-ok, Bool-cases, eqb, ◌==◌, eq_iff,
}
use schema_guard.Base.Dict.{Dict, lookup, keys, lookup-insert, keys-insert}
use schema_guard.Hashing.{Digest}
use schema_guard.Runner.Record.{TaskStateRecord, SchedulerState, state_is_valid}
use schema_guard.Runner.Transition.{
  Request, is_running, transition_record, heartbeat_record, worker_record, recovered_record,
}
use schema_guard.Runner.Transition.Abandoned.{IsAbandoned}
use schema_guard.Runner.State.{
  holds, read_state, write_state, update_state, step_task, store_task, sweep_state, commit,
  commit_recovery, initialize, transition, heartbeat, set_worker_pid, recover_abandoned,
}
use schema_guard.Runner.State.Steps.{Op, init, move, beat, assign, sweep, run_op, step_inv}
use schema_guard.Runner.State.Sweep.{Swept, done, taken, kept, sweep_state-Swept}

-- One step in the life of a record.
pub data RecordStep (r : TaskStateRecord) : TaskStateRecord → Type 0 where
  idle : RecordStep r r
  moved :
      (now pid : ℕ) (a : Request) {r' : TaskStateRecord}
      → transition_record now pid r a ≡ ok r'
      → RecordStep r r'
  beaten : (now : ℕ) {r' : TaskStateRecord} → heartbeat_record now r ≡ ok r' → RecordStep r r'
  assigned : (worker : ℕ) {r' : TaskStateRecord} → worker_record worker r ≡ ok r' → RecordStep r r'
  recovered : (now : ℕ) → is_running r.state ≡ true → RecordStep r (recovered_record now r)

-- Any number of steps.
pub data Life (r : TaskStateRecord) : TaskStateRecord → Type 0 where
  here : Life r r
  next : {r' r'' : TaskStateRecord} → Life r r' → RecordStep r' r'' → Life r r''

-- The state that an operation leaves: the same tasks, and one step of each.
pub record Evolves (s s' : SchedulerState) : Type 0 where
  pub same_plan : s'.plan_hash ≡ s.plan_hash
  pub same_keys : keys s'.tasks ≡ keys s.tasks
  pub each :
      (k : String) (r : TaskStateRecord)
      → lookup k s.tasks ≡ some r
      → (r' : TaskStateRecord) × (lookup k s'.tasks ≡ some r') × RecordStep r r'

Evolves-refl : (s : SchedulerState) → Evolves s s
Evolves-refl s = record { same_plan = refl; same_keys = refl; each = λ k r e. (r, e, idle) }

-- Storing the outcome of a step of one record is a step of that record and of no other.
store_task-Evolves :
    (j : String) (q q' : TaskStateRecord) (s : SchedulerState)
    → lookup j s.tasks ≡ some q
    → RecordStep q q'
    → Evolves s (store_task j q' s)
unfolding store_task
store_task-Evolves j q q' s found step = record {
  same_plan = refl;
  same_keys = keys-insert j q' q s.tasks found;
  each = λ k r e. elim (Bool-cases (j == k)) [
    | inl same ↦
        let p : q ≡ r = ground (arith, eq_iff j k) in
        (q', rw (lookup-insert, same), subst (λ x. RecordStep x q') p step)
    | inr other ↦ (r, rw (lookup-insert, other) e, idle)
  ];
}

module _ (now lease : ℕ) (pid_exists : ℕ → Bool) where
  Swept-keys :
      {d : Dict TaskStateRecord} {n : ℕ} {d' : Dict TaskStateRecord}
      → Swept now lease pid_exists d n d'
      → keys d' ≡ keys d
  Swept-keys done = refl
  Swept-keys (taken {k = k} a w) = ap (◌∷◌ k) (Swept-keys w)
  Swept-keys (kept {k = k} a w) = ap (◌∷◌ k) (Swept-keys w)

  -- A sweep recovers the task of a key exactly if it is abandoned, and else leaves it as it is.
  pub Swept-lookup :
      {d : Dict TaskStateRecord} {n : ℕ} {d' : Dict TaskStateRecord}
      → Swept now lease pid_exists d n d'
      → (k : String) (r : TaskStateRecord) → lookup k d ≡ some r
      → (IsAbandoned now lease pid_exists r × (lookup k d' ≡ some (recovered_record now r)))
        ⊎ ((¬ IsAbandoned now lease pid_exists r) × (lookup k d' ≡ some r))
  unfolding lookup
  Swept-lookup done k r e = absurd (cc)
  Swept-lookup (taken {k = j} {r = q} a w) k r e = elim (Bool-cases (j == k)) [
    | inl same ↦
        let p : q ≡ r = ground arith in
        inl (subst (IsAbandoned now lease pid_exists) p a, ground arith)
    | inr other ↦ rw other (Swept-lookup w k r (ground arith))
  ]
  Swept-lookup (kept {k = j} {r = q} a w) k r e = elim (Bool-cases (j == k)) [
    | inl same ↦
        let p : q ≡ r = ground arith in
        inr (subst (λ x. ¬ IsAbandoned now lease pid_exists x) p a, ground arith)
    | inr other ↦ rw other (Swept-lookup w k r (ground arith))
  ]

  Swept-Evolves :
      (s s' : SchedulerState) {n : ℕ}
      → Swept now lease pid_exists s.tasks n s'.tasks
      → s'.plan_hash ≡ s.plan_hash
      → Evolves s s'
  Swept-Evolves s s' w p = record {
    same_plan = p;
    same_keys = Swept-keys w;
    each = λ k r e. elim (Swept-lookup w k r e) [
      | inl (a, found) ↦ (recovered_record now r, found, recovered now a.live)
      | inr (a, found) ↦ (r, found, idle)
    ];
  }

module _ (h : Digest) where
  -- A write either leaves the file as it was or stores the new state.
  write_state-Evolves {ℓ} :
      {A : Type ℓ} (s : SchedulerState) (a : A) (s' : SchedulerState)
      → Evolves s s'
      → (t : SchedulerState) × ((write_state h (holds s) (a, s')).1 ≡ holds t) × Evolves s t
  unfolding write_state
  write_state-Evolves s a s' v = elim (Bool-cases (state_is_valid h s')) [
    | inl valid ↦ (s', rw valid refl, v)
    | inr invalid ↦ (s, rw invalid refl, Evolves-refl s)
  ]

  commit-Evolves {ℓ} :
      {A : Type ℓ} (s : SchedulerState) (r : Result (A × SchedulerState))
      → ((a : A) (s' : SchedulerState) → r ≡ ok (a, s') → Evolves s s')
      → (t : SchedulerState) × ((commit h (holds s) r).1 ≡ holds t) × Evolves s t
  unfolding commit
  commit-Evolves s (ok (a, s')) v = write_state-Evolves s a s' (v a s' refl)
  commit-Evolves s (err e) v = (s, refl, Evolves-refl s)

  commit_recovery-Evolves :
      (s : SchedulerState) (r : Result (ℕ × SchedulerState))
      → ((n : ℕ) (s' : SchedulerState) → r ≡ ok (n, s') → Evolves s s')
      → (t : SchedulerState) × ((commit_recovery h (holds s) r).1 ≡ holds t) × Evolves s t
  unfolding commit_recovery
  commit_recovery-Evolves s (ok (n, s')) v = elim (Bool-cases (eqb n 0)) [
    | inl nothing ↦ (s, rw nothing refl, Evolves-refl s)
    | inr some' ↦ rw some' (write_state-Evolves s n s' (v n s' refl))
  ]
  commit_recovery-Evolves s (err e) v = (s, refl, Evolves-refl s)

  -- What `_read` returns of a file is the state that the file holds.
  same_of_read : (s t : SchedulerState) → read_state h (holds s) ≡ ok t → t ≡ s
  unfolding read_state
  same_of_read s t e = ground arith

  -- An operation on one task evolves the state, if its step is a step of a record.
  update_state-Evolves {ℓ} :
      {A : Type ℓ} (e : Error) (k : String) (step : TaskStateRecord → Result TaskStateRecord)
      (g : TaskStateRecord → A)
      → ((r r' : TaskStateRecord) → step r ≡ ok r' → RecordStep r r')
      → (s : SchedulerState)
      → (t : SchedulerState) × ((update_state h (holds s) (step_task e k step g)).1 ≡ holds t)
        × Evolves s t
  unfolding update_state
  update_state-Evolves e k step g steps s =
      commit-Evolves s (read_state h (holds s) >>= step_task e k step g) λ a s' made.
        let (t, readable, changed) =
          >>=-eq-ok (read_state h (holds s)) (step_task e k step g) made in
        let (r, r', found, stepped, _, stored) = step_inv e k step g t changed in
        subst (λ x. Evolves x s') (same_of_read s t readable)
          (subst (Evolves t) (sym stored) (store_task-Evolves k r r' t found (steps r r' stepped)))

  sweep-Evolves :
      (now lease : ℕ) (pid_exists : ℕ → Bool) (s : SchedulerState)
      → (t : SchedulerState) × ((recover_abandoned h now lease pid_exists (holds s)).1 ≡ holds t)
        × Evolves s t
  unfolding recover_abandoned
  sweep-Evolves now lease pid_exists s =
      commit_recovery-Evolves s (read_state h (holds s) >>= sweep_state now lease pid_exists)
        λ n s' made.
          let (t, readable, swept) =
            >>=-eq-ok (read_state h (holds s)) (sweep_state now lease pid_exists) made in
          let (w, same) = sweep_state-Swept now lease pid_exists t swept in
          subst (λ x. Evolves x s') (same_of_read s t readable)
            (Swept-Evolves now lease pid_exists t s' w
              (ap (λ (x : SchedulerState). x.plan_hash) same))

  -- Every operation on a file that holds a state leaves one that holds a state with the same plan
  -- and the same tasks, in which each record has made at most one step.
  pub run_op-Evolves :
      (op : Op) (s : SchedulerState)
      → (t : SchedulerState) × (run_op h op (holds s) ≡ holds t) × Evolves s t
  unfolding run_op initialize transition heartbeat set_worker_pid
  run_op-Evolves (init now plan) s = (s, refl, Evolves-refl s)
  run_op-Evolves (move now pid task_id a) s =
      update_state-Evolves state_integrity task_id (λ r. transition_record now pid r a) (λ r. r)
        (λ r r' e. moved now pid a e) s
  run_op-Evolves (beat now task_id) s =
      update_state-Evolves key_error task_id (heartbeat_record now) (λ r. tt)
        (λ r r' e. beaten now e) s
  run_op-Evolves (assign task_id worker) s =
      update_state-Evolves key_error task_id (worker_record worker) (λ r. tt)
        (λ r r' e. assigned worker e) s
  run_op-Evolves (sweep now lease pid_exists) s = sweep-Evolves now lease pid_exists s
