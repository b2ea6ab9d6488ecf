-- ===== src/Runner/State/Lives.antt =====
-- What the operations of runner/state.py can and cannot do to a task over a whole run: its history
-- only grows, and a blocked, cancelled or completed task stays as it is.
use mathlib.Core.List.{append-nil, append_assoc}
use schema_guard.Base.{
  ◌≤◌, String, ◌≡◌, refl, sym, subst, ap, ◌∙◌, ◌⊎◌, inl, inr, Bool, Option, some, List, [], ◌∷◌,
  ◌++◌, arith, length, length-map_last,
}
use schema_guard.Base.Dict.{lookup, keys}
use schema_guard.Hashing.{Digest}
use schema_guard.Runner.Record.{
  TaskStatus, pending, complete, blocked, cancelled, TaskTransition, TaskStateRecord,
  SchedulerState,
}
use schema_guard.Runner.Transition.{
  beat, assign_worker, next_record, heartbeat_record, worker_record, recovered_record,
  invalid_cache_artifact, is_live,
}
use schema_guard.Runner.Transition.Edges.{Permitted, recompute, Permitted-of_ok, start}
use schema_guard.Runner.Transition.Invariant.{next_attempts-le}
use schema_guard.Runner.Resource.{utc}
use schema_guard.Runner.State.{holds}
use schema_guard.Runner.State.Steps.{Op, run_ops}
use schema_guard.Runner.State.History.{
  RecordStep, idle, moved, beaten, assigned, recovered, Life, here, next, run_op-Evolves,
}

-- The state after a run: the same plan and tasks, and a life of each.
pub record Outlives (s t : SchedulerState) : Type 0 where
  pub same_plan : t.plan_hash ≡ s.plan_hash
  pub same_keys : keys t.tasks ≡ keys s.tasks
  pub each :
      (k : String) (r : TaskStateRecord)
      → lookup k s.tasks ≡ some r
      → (r' : TaskStateRecord) × (lookup k t.tasks ≡ some r') × Life r r'

Life-trans : {p q r : TaskStateRecord} → Life p q → Life q r → Life p r
Life-trans l here = l
Life-trans l (next m s) = next (Life-trans l m) s

module _ (h : Digest) where
  -- After any operations the file still holds a state, of the same plan and the same tasks, and
  -- each record has come there by steps of its own.
  pub run_ops-Outlives :
      (ops : List Op) (s : SchedulerState)
      → (t : SchedulerState) × (run_ops h ops (holds s) ≡ holds t) × Outlives s t
  unfolding run_ops
  run_ops-Outlives [] s =
      (s, refl, record { same_plan = refl; same_keys = refl; each = λ k r e. (r, e, here) })
  run_ops-Outlives (op ∷ ops) s =
      let (u, stepped, v) = run_op-Evolves h op s in
      let (t, ran, w) = run_ops-Outlives ops u in
      (
        t,
        rw stepped ran,
        record {
          same_plan = w.same_plan ∙ v.same_plan;
          same_keys = w.same_keys ∙ v.same_keys;
          each = λ k r e.
              let (r', found, step) = v.each k r e in
              let (r'', last', life) = w.each k r' found in
              (r'', last', Life-trans (next here step) life);
        },
      )

-- The record keeps its task and its transitions, in order, and never loses an attempt.
pub record Grows (r r' : TaskStateRecord) : Type 0 where
  pub same_task : r'.task ≡ r.task
  pub added : List TaskTransition
  pub history : r'.transitions ≡ r.transitions ++ added
  pub attempts : length r.attempts ≤ length r'.attempts

still-Grows :
    (r r' : TaskStateRecord)
    → r'.task ≡ r.task
    → r'.transitions ≡ r.transitions
    → length r'.attempts ≡ length r.attempts
    → Grows r r'
still-Grows r r' t h n = record {
  same_task = t;
  added = [];
  history = h ∙ sym (append-nil r.transitions);
  attempts = omega arith;
}

step-Grows : {r r' : TaskStateRecord} → RecordStep r r' → Grows r r'
unfolding heartbeat_record worker_record next_record recovered_record
step-Grows {r} idle = still-Grows r r refl refl refl
step-Grows {r} {r'} (moved now pid a e) =
    let (p, made) = Permitted-of_ok now pid r a e in
    subst (Grows r) (sym made) (record {
      same_task = refl;
      added = _;
      history = refl;
      attempts = next_attempts-le now pid r a;
    })
step-Grows {r} {r'} (beaten now e) =
    still-Grows r r' (ground arith) (ground arith)
      (ground (arith, length-map_last (beat now) r.attempts))
step-Grows {r} {r'} (assigned worker e) =
    still-Grows r r' (ground arith) (ground arith)
      (ground (arith, length-map_last (assign_worker worker) r.attempts))
step-Grows {r} (recovered now live) = record {
  same_task = refl;
  added = _;
  history = refl;
  attempts = rw length-map_last (omega arith);
}

Grows-trans : {p q r : TaskStateRecord} → Grows p q → Grows q r → Grows p r
Grows-trans {p} {q} {r} a b = record {
  same_task = b.same_task ∙ a.same_task;
  added = a.added ++ b.added;
  history = rw (b.history, a.history) (append_assoc p.transitions a.added b.added);
  attempts = omega (arith, a.attempts, b.attempts);
}

-- A record that has lived on has the same task, a history that the old one begins, and no fewer
-- attempts.
pub Life-Grows : {r r' : TaskStateRecord} → Life r r' → Grows r r'
Life-Grows {r} here = still-Grows r r refl refl refl
Life-Grows (next l s) = Grows-trans (Life-Grows l) (step-Grows s)

-- The two statuses that nothing leaves.
abbrev pub IsSettled : TaskStatus → Type 0
IsSettled s = (s ≡ blocked) ⊎ (s ≡ cancelled)

-- The first step out of a completed record.
pub record IsInvalidated (r r' : TaskStateRecord) : Type 0 where
  pub entry : TaskTransition
  pub later : List TaskTransition
  pub history : r'.transitions ≡ r.transitions ++ entry ∷ later
  pub from_complete : entry.from_state ≡ complete
  pub to_pending : entry.to_state ≡ pending
  pub cause : entry.reason ≡ some invalid_cache_artifact

no_edge :
    {why : Option String} {flag : Bool} {s t : TaskStatus} → IsSettled s → ¬ Permitted why flag s t
no_edge e start = ground arith
no_edge e p = ground arith

step-settled : {r r' : TaskStateRecord} → RecordStep r r' → IsSettled r.state → r' ≡ r
unfolding heartbeat_record worker_record is_live
step-settled idle s = refl
step-settled {r} (moved now pid a e) s = absurd (no_edge s (Permitted-of_ok now pid r a e).0)
step-settled (beaten now e) s = absurd (ground arith)
step-settled (assigned worker e) s = absurd (ground arith)
step-settled (recovered now live) s = absurd (ground arith)

-- A blocked or cancelled record never changes again.
pub Life-settled : {r r' : TaskStateRecord} → Life r r' → IsSettled r.state → r' ≡ r
Life-settled here s = refl
Life-settled {r} (next {r' = q} l t) s =
    let p = Life-settled l s in
    step-settled t (subst (λ (x : TaskStateRecord). IsSettled x.state) (sym p) s) ∙ p

recompute_only :
    {why : Option String} {flag : Bool} {s t : TaskStatus}
    → s ≡ complete
    → Permitted why flag s t
    → (t ≡ pending) × (why ≡ some invalid_cache_artifact)
recompute_only e (recompute why) = (refl, why)
recompute_only e start = absurd (cc)
recompute_only e p = absurd (ground arith)

step-complete :
    {r r' : TaskStateRecord} → RecordStep r r' → r.state ≡ complete → (r' ≡ r) ⊎ IsInvalidated r r'
unfolding heartbeat_record worker_record is_live next_record
step-complete idle s = inl refl
step-complete {r} {r'} (moved now pid a e) s =
    let (p, made) = Permitted-of_ok now pid r a e in
    let (t, why) = recompute_only s p in
    inr (record {
      entry = record {
        from_state = r.state;
        to_state = a.to_state;
        timestamp = utc now;
        reason = a.reason;
      };
      later = [];
      history = rw made refl;
      from_complete = s;
      to_pending = t;
      cause = why;
    })
step-complete (beaten now e) s = absurd (ground arith)
step-complete (assigned worker e) s = absurd (ground arith)
step-complete (recovered now live) s = absurd (ground arith)

-- A completed record stays as it is, unless its next transition says that its artifact is invalid.
pub Life-complete :
    {r r' : TaskStateRecord} → Life r r' → r.state ≡ complete → (r' ≡ r) ⊎ IsInvalidated r r'
Life-complete here s = inl refl
Life-complete {r} {r'} (next {r' = q} l t) s = elim (Life-complete l s) [
  | inl p ↦
      subst (λ (x : TaskStateRecord). (r' ≡ x) ⊎ IsInvalidated x r') p
        (step-complete t (ap (λ (x : TaskStateRecord). x.state) p ∙ s))
  | inr v ↦
      let g = step-Grows t in
      inr (record {
        entry = v.entry;
        later = v.later ++ g.added;
        history =
            rw (g.history, v.history) (append_assoc r.transitions (v.entry ∷ v.later) g.added);
        from_complete = v.from_complete;
        to_pending = v.to_pending;
        cause = v.cause;
      })
]

module _ (h : Digest) (ops : List Op) (s : SchedulerState) (k : String) (r : TaskStateRecord)
    (found : lookup k s.tasks ≡ some r) where
  -- Whatever the processes of a run do, in any order, the task of a key stays there with its
  -- specification, its transitions so far begin its transitions then, and no attempt is lost.
  pub run_ops-Grows :
      (t : SchedulerState) × (run_ops h ops (holds s) ≡ holds t)
      × (r' : TaskStateRecord) × (lookup k t.tasks ≡ some r')
      × Grows r r'
  run_ops-Grows =
      let (t, ran, o) = run_ops-Outlives h ops s in
      let (r', there, life) = o.each k r found in (t, ran, r', there, Life-Grows life)

  -- A blocked or cancelled task has the same record after any operations.
  pub run_ops-settled :
      IsSettled r.state
      → (t : SchedulerState) × (run_ops h ops (holds s) ≡ holds t) × (lookup k t.tasks ≡ some r)
  run_ops-settled settled =
      let (t, ran, o) = run_ops-Outlives h ops s in
      let (r', there, life) = o.each k r found in
      (t, ran, there ∙ ap some (Life-settled life settled))

  -- A completed task has the same record after any operations, or its next transition went back to
  -- PENDING for an invalid cache artifact.
  pub run_ops-complete :
      r.state ≡ complete
      → (t : SchedulerState) × (run_ops h ops (holds s) ≡ holds t)
        × (r' : TaskStateRecord) × (lookup k t.tasks ≡ some r')
        × ((r' ≡ r) ⊎ IsInvalidated r r')
  run_ops-complete done =
      let (t, ran, o) = run_ops-Outlives h ops s in
      let (r', there, life) = o.each k r found in (t, ran, r', there, Life-complete life done)
