-- ===== src/Runner/State/Progress.antt =====
-- No task of runner/state.py is stuck: `transition` leads from every state but BLOCKED and CANCELLED
-- to COMPLETE.
use schema_guard.Base.{
  ℕ, ◌<◌, String, ◌≡◌, ◌≢◌, refl, sym, subst, inl, inr, ap, ◌∙◌, true, false, none, some, List, [],
  ◌∷◌,
}
use schema_guard.Base.Dict.{lookup}
use schema_guard.Hashing.{Digest}
use schema_guard.Cache.Identity.{is_sha256}
use schema_guard.Runner.Record.{
  TaskStatus, pending, running, complete, failed, blocked, cancelled, TaskStateRecord,
  SchedulerState, is_portable_path,
}
use schema_guard.Runner.Transition.{Request, next_record, invalid_cache_artifact}
use schema_guard.Runner.Transition.Edges.{Permitted, start, finish, retry, recompute}
use schema_guard.Runner.State.Lives.{IsSettled}
use schema_guard.Runner.State.{holds, store_task}
use schema_guard.Runner.State.Steps.{Op, move, run_op, run_ops}
use schema_guard.Runner.State.Sound.{IsSound, run_op-IsSound}
use schema_guard.Runner.State.Accepts.{IsStorable, transition_returns}
use schema_guard.Runner.State.Lease.{lookup-store_task}

-- A request for a state, with the reason INVALID_CACHE_ARTIFACT and the retry flag.
abbrev asking : TaskStatus → Request
asking t = record {
  to_state = t;
  reason = some invalid_cache_artifact;
  failure_category = none;
  resource = none;
  artifact_path = none;
  artifact_sha256 = none;
  cache_hit = false;
  retry_failed = true;
}

module _ (h : Digest) (now pid : ℕ) (positive : 0 < pid) (k path digest : String)
    (portable : is_portable_path path ≡ true) (hex : is_sha256 digest ≡ true) where
  abbrev publishing : Request
  publishing = record (asking complete) { artifact_path = some path; artifact_sha256 = some digest }

  -- Some operations lead from a state to one in which the task is complete with the artifact.
  abbrev pub Completes : SchedulerState → Type 0
  Completes s =
      (ops : List Op) × (t : SchedulerState) × (run_ops h ops (holds s) ≡ holds t)
      × (r : TaskStateRecord) × (lookup k t.tasks ≡ some r)
      × (r.state ≡ complete)
      × (r.artifact_path ≡ some path)
      × (r.artifact_sha256 ≡ some digest)

  module _ (s : SchedulerState) (r : TaskStateRecord) (sound : IsSound h (holds s))
      (found : lookup k s.tasks ≡ some r) (a : Request) (storable : IsStorable pid a)
      (edge : Permitted a.reason a.retry_failed r.state a.to_state) where
    moved : run_op h (move now pid k a) (holds s) ≡ holds (store_task k (next_record now pid r a) s)
    unfolding run_op
    moved = ap (λ e. e.1) (transition_returns h now pid k a s r sound found edge storable)

    moved-IsSound : IsSound h (holds (store_task k (next_record now pid r a) s))
    moved-IsSound = subst (IsSound h) moved (run_op-IsSound h (move now pid k a) (holds s) sound)

  prepend :
      (s s' : SchedulerState) (op : Op)
      → run_op h op (holds s) ≡ holds s'
      → Completes s'
      → Completes s
  unfolding run_ops
  prepend s s' op did (ops, t, ran, r, there, done, at_path, of_digest) =
      (op ∷ ops, t, ap (run_ops h ops) did ∙ ran, r, there, done, at_path, of_digest)

  storable : (t : TaskStatus) → t ≢ complete → IsStorable pid (asking t)
  storable t other = record {
    positive = positive;
    resource = refl;
    artifact = λ e. absurd (other e);
  }

  publishing-IsStorable : IsStorable pid publishing
  publishing-IsStorable = record {
    positive = positive;
    resource = refl;
    artifact = λ e. (path, digest, refl, refl, portable, hex);
  }

  -- A request that the diagram permits, followed by what completes the task from there.
  continue :
      (s : SchedulerState) (r : TaskStateRecord) (t : TaskStatus)
      → IsSound h (holds s)
      → lookup k s.tasks ≡ some r
      → t ≢ complete
      → Permitted (some invalid_cache_artifact) true r.state t
      → ((s' : SchedulerState) (r' : TaskStateRecord)
          → IsSound h (holds s')
          → lookup k s'.tasks ≡ some r'
          → r'.state ≡ t
          → Completes s')
      → Completes s
  unfolding next_record
  continue s r t sound found other edge rest =
      let a = asking t in
      let valid = storable t other in
      let r' = next_record now pid r a in
      prepend s (store_task k r' s) (move now pid k a) (moved s r sound found a valid edge) (
        rest (store_task k r' s) r' (moved-IsSound s r sound found a valid edge)
          (lookup-store_task k r' s) refl)

  from_running :
      (s : SchedulerState) (r : TaskStateRecord)
      → IsSound h (holds s)
      → lookup k s.tasks ≡ some r
      → r.state ≡ running
      → Completes s
  unfolding run_ops next_record
  from_running s r sound found e =
      let edge =
        subst (λ t. Permitted (some invalid_cache_artifact) true t complete) (sym e) finish in
      let r' = next_record now pid r publishing in
      (
        move now pid k publishing ∷ [],
        store_task k r' s,
        moved s r sound found publishing publishing-IsStorable edge,
        r',
        lookup-store_task k r' s,
        refl,
        refl,
        refl,
      )

  from_pending :
      (s : SchedulerState) (r : TaskStateRecord)
      → IsSound h (holds s)
      → lookup k s.tasks ≡ some r
      → r.state ≡ pending
      → Completes s
  from_pending s r sound found e =
      continue s r running sound found (λ e. cc)
        (subst (λ t. Permitted (some invalid_cache_artifact) true t running) (sym e) start)
        from_running

  from_state :
      (s : SchedulerState) (r : TaskStateRecord) (t : TaskStatus)
      → IsSound h (holds s)
      → lookup k s.tasks ≡ some r
      → ¬ IsSettled r.state
      → r.state ≡ t
      → Completes s
  from_state s r pending sound found open_task e = from_pending s r sound found e
  from_state s r running sound found open_task e = from_running s r sound found e
  from_state s r failed sound found open_task e =
      continue s r pending sound found (λ e. cc)
        (subst (λ t. Permitted (some invalid_cache_artifact) true t pending) (sym e) (retry refl))
        from_pending
  from_state s r complete sound found open_task e =
      continue s r pending sound found (λ e. cc)
        (subst (λ t. Permitted (some invalid_cache_artifact) true t pending) (sym e)
          (recompute refl))
        from_pending
  from_state s r blocked sound found open_task e = absurd (open_task (inl e))
  from_state s r cancelled sound found open_task e = absurd (open_task (inr e))

  -- On a sound file, a task that is neither blocked nor cancelled can be completed with any artifact
  -- of a portable path and a digest: some operations lead to a file that holds it so.
  pub task_completes :
      (s : SchedulerState) (r : TaskStateRecord)
      → IsSound h (holds s)
      → lookup k s.tasks ≡ some r
      → ¬ IsSettled r.state
      → Completes s
  task_completes s r sound found open_task = from_state s r r.state sound found open_task refl
