-- ===== src/Runner/State/Accepts.antt =====
-- `transition` of runner/state.py returns exactly where the diagram and the contracts of the record
-- permit.
use schema_guard.Base.{
  ℕ, ◌<◌, String, ◌≡◌, refl, sym, inl, inr, true, none, some, [], ◌∷◌, arith, all, all→All,
  all-append, all-map_last, optionally, Result, ok, err, Error, invalid_transition, state_integrity,
  ◌>>=◌, Bool-cases, if◌then◌else◌,
}
use schema_guard.Base.Dict.{Dict, lookup, insert, AllValues-lookup}
use schema_guard.Hashing.{Digest}
use schema_guard.Cache.Identity.{is_sha256}
use schema_guard.Runner.Resource.{resource_is_valid}
use schema_guard.Runner.Record.{
  TaskStatus, complete, TaskStateRecord, SchedulerState, is_portable_path, attempt_is_valid,
  artifact_state_is_valid, record_is_valid, state_is_valid, record_is_valid_iff, state_is_valid_iff,
}
use schema_guard.Runner.Transition.{
  Request, is_running, is_complete, next_attempts, next_record, start_attempt, close_abandoned,
  close_attempt, retry_abandoned,
}
use schema_guard.Runner.Transition.Edges.{Permitted, transition_record-Permitted}
use schema_guard.Runner.State.{
  holds, read_state, write_state, update_state, find_task, step_task, store_task, commit,
  transition,
}
use schema_guard.Runner.State.Sound.{IsSound}
use schema_guard.Runner.State.Outcome.{transition_lem}

-- What the contracts of the record ask of a request: a positive process number, a valid resource,
-- and for a completed task an artifact with a portable path and a digest.
pub record IsStorable (pid : ℕ) (a : Request) : Type 0 where
  pub positive : 0 < pid
  pub resource : optionally resource_is_valid a.resource ≡ true
  pub artifact :
      a.to_state ≡ complete
      → (path digest : String) × (a.artifact_path ≡ some path)
        × (a.artifact_sha256 ≡ some digest)
        × (is_portable_path path ≡ true)
        × (is_sha256 digest ≡ true)

module _ (now pid : ℕ) (a : Request) (storable : IsStorable pid a) where
  next_attempts-valid :
      (r : TaskStateRecord)
      → all attempt_is_valid r.attempts ≡ true
      → all attempt_is_valid (next_attempts now pid r a) ≡ true
  unfolding next_attempts attempt_is_valid start_attempt close_abandoned close_attempt
  next_attempts-valid r v = elim (Bool-cases (is_running a.to_state)) [
    | inl live ↦
        rw live (all-append attempt_is_valid r.attempts _ v (ground (arith, storable.positive)))
    | inr idle ↦ rw idle (elim (Bool-cases (retry_abandoned r.state a)) [
      | inl lost ↦
          rw lost
            (all-map_last attempt_is_valid (close_abandoned now a.reason) (λ x w. w) r.attempts v)
      | inr kept ↦ rw kept (elim (Bool-cases (is_running r.state)) [
        | inl live ↦ rw live (
            all-map_last attempt_is_valid (close_attempt now a)
              (λ x w. ground (arith, storable.resource)) r.attempts v)
        | inr rest ↦ rw rest v
      ])
    ])
  ]

  next_artifact-valid :
      (t : TaskStatus)
      → t ≡ a.to_state
      → (artifact_state_is_valid t
            (if is_complete t then a.artifact_path else none)
            (if is_complete t then a.artifact_sha256 else none)
          ≡ true)
        × (optionally is_sha256 (if is_complete t then a.artifact_sha256 else none) ≡ true)
  unfolding artifact_state_is_valid
  next_artifact-valid complete e =
      let (path, digest, p, d, portable, hex) = storable.artifact (sym e) in
      (rw (p, d) portable, rw d hex)
  next_artifact-valid _ e = (refl, refl)

  next_record-valid :
      (h : Digest) (r : TaskStateRecord)
      → record_is_valid h r ≡ true
      → record_is_valid h (next_record now pid r a) ≡ true
  unfolding next_record
  next_record-valid h r v =
      let (task, attempts, digest, artifact) = (record_is_valid_iff h r).0 v in
      let (artifact', digest') = next_artifact-valid a.to_state refl in
      (record_is_valid_iff h (next_record now pid r a)).1
        (task, next_attempts-valid r attempts, digest', artifact')

lookup-valid :
    (h : Digest) (k : String) (d : Dict TaskStateRecord) (r : TaskStateRecord)
    → all (λ e. record_is_valid h e.1) d ≡ true
    → lookup k d ≡ some r
    → record_is_valid h r ≡ true
lookup-valid h k d r v found =
    AllValues-lookup (λ x. record_is_valid h x ≡ true) k d r
      (all→All (λ (e : String × TaskStateRecord). record_is_valid h e.1) d v) found

insert-valid :
    (h : Digest) (k : String) (r : TaskStateRecord) (d : Dict TaskStateRecord)
    → record_is_valid h r ≡ true
    → all (λ e. record_is_valid h e.1) d ≡ true
    → all (λ e. record_is_valid h e.1) (insert k r d) ≡ true
unfolding insert
insert-valid h k r [] v w = ground arith
insert-valid h k r ((j, q) ∷ d) v w = ground (arith, insert-valid h k r d v)

-- An update of a valid state reads that state.
pub update_state-valid {ℓ} :
    {A : Type ℓ} (h : Digest) (s : SchedulerState)
    (change : SchedulerState → Result (A × SchedulerState))
    → state_is_valid h s ≡ true
    → update_state h (holds s) change ≡ commit h (holds s) (change s)
unfolding update_state read_state
update_state-valid h s change v = rw v refl

pub step_task-found {ℓ} :
    {A : Type ℓ} (e : Error) (k : String) (step : TaskStateRecord → Result TaskStateRecord)
    (g : TaskStateRecord → A) (s : SchedulerState) (r : TaskStateRecord)
    → lookup k s.tasks ≡ some r
    → step_task e k step g s ≡ (step r >>= λ u. ok (g u, store_task k u s))
unfolding step_task find_task
step_task-found e k step g s r found = ground arith

module _ (h : Digest) (now pid : ℕ) (k : String) (a : Request) (s : SchedulerState)
    (r : TaskStateRecord) where
  -- On a sound file, a request for a task of the file that lies on an edge of the diagram and
  -- whose values fit the contracts returns the next record and stores it.
  pub transition_returns :
      IsSound h (holds s)
      → lookup k s.tasks ≡ some r
      → Permitted a.reason a.retry_failed r.state a.to_state
      → IsStorable pid a
      → transition h now pid k a (holds s)
        ≡ (ok (next_record now pid r a), holds (store_task k (next_record now pid r a) s))
  unfolding commit write_state store_task
  transition_returns sound found p storable =
      let (version, hash, records) = (state_is_valid_iff h s).0 sound.0 in
      let next = next_record now pid r a in
      let valid : state_is_valid h (store_task k next s) ≡ true =
        (state_is_valid_iff h (store_task k next s)).1 (
          version,
          hash,
          insert-valid h k next s.tasks
              (next_record-valid now pid a storable h r (lookup-valid h k s.tasks r records found))
              records,
        ) in
      rw
        (
          transition_lem,
          update_state-valid h s _ sound.0,
          step_task-found state_integrity k _ _ s r found,
          (transition_record-Permitted now pid r a).0 p,
        )
        (rw valid refl)

  -- On a sound file, a request for a task of the file that lies on no edge of the diagram raises
  -- InvalidStateTransition and leaves the file as it was.
  pub transition_refused :
      IsSound h (holds s)
      → lookup k s.tasks ≡ some r
      → ¬ Permitted a.reason a.retry_failed r.state a.to_state
      → transition h now pid k a (holds s) ≡ (err invalid_transition, holds s)
  unfolding commit
  transition_refused sound found n =
      rw
        (
          transition_lem,
          update_state-valid h s _ sound.0,
          step_task-found state_integrity k _ _ s r found,
          (transition_record-Permitted now pid r a).1 n,
        )
        refl
