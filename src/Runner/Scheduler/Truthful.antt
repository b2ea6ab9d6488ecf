-- ===== src/Runner/Scheduler/Truthful.antt =====
-- runner/scheduler.py: what the outcome of a preparation says of the state file, the cache and the
-- index.
use schema_guard.Base.{
  ℕ, String, ◌≡◌, refl, ap, ◌∙◌, false, inl, inr, Option, none, some, Result, ok, err, Error,
  cache_integrity, Bool-cases, Option-cases, Result-cases, >>=-eq-ok, eq_refl, arith, [],
}
use schema_guard.Base.Dict.{lookup, remove, lookup-insert, lookup-remove}
use schema_guard.Hashing.{Digest}
use schema_guard.Cache.Identity.{CacheIdentity, DevicePolicy, cpu, cuda, cache_key, is_sha256}
use schema_guard.Cache.Files.{Files}
use schema_guard.Cache.Entry.{CacheArtifact}
use schema_guard.Cache.Store.{Store, read_validated, quarantine_invalid, validate_entry}
use schema_guard.Cache.Index.{IndexFile, absent, corrupt, table, add, values, upsert}
use schema_guard.Runner.Task.{TaskSpec}
use schema_guard.Runner.Record.{
  TaskStatus, pending, running, complete, failed, blocked, cancelled, TaskStateRecord,
  SchedulerState,
}
use schema_guard.Runner.Transition.{Request, is_pending, next_record}
use schema_guard.Runner.State.{StateFile, holds, read_state, transition, store_task}
use schema_guard.Runner.State.Steps.{read_state-holds, find_task_lem}
use schema_guard.Runner.State.Outcome.{transition_ok}
use schema_guard.Runner.Scheduler.{
  World, Env, Outcome, counted_failed, counted_blocked, counted_cancelled, cache_hit, not_pending,
  queued_cpu, queued_gpu, or_none, move_task, index_artifact, put_entry_aside, read_task,
  resume_complete, resume_task, complete_from_cache, queue_task, queue_of, schedule_found,
  schedule_record, schedule_task, finish_round, prepare_task, explicit_retry, reset_invalid,
  start_hit, finish_hit, start_scheduled,
}
use schema_guard.Runner.Scheduler.Returns.{Returns, ok-Returns, and_then-Returns, if-Returns}

-- An index that was written has the row of the artifact under its key.
abbrev pub IsIndexed : ℕ → CacheArtifact → IndexFile → Type 0
IsIndexed now a index =
    (rows : _) × (index ≡ table rows) × (lookup a.cache_key rows ≡ some (values now a))

add-IsIndexed :
    (now : ℕ) (a : CacheArtifact) (index : IndexFile)
    → (add now a index).0 ≡ ok tt
    → IsIndexed now a (add now a index).1
unfolding add upsert
add-IsIndexed now a absent e = (
  upsert now a [],
  refl,
  ground (arith, lookup-insert a.cache_key a.cache_key (values now a) [], eq_refl a.cache_key),
)
add-IsIndexed now a corrupt e = cc
add-IsIndexed now a (table rows) e = (
  upsert now a rows,
  refl,
  ground (arith, lookup-insert a.cache_key a.cache_key (values now a) rows, eq_refl a.cache_key),
)

module _ {B : Type 0} (files : Files B) (h : Digest) where
  -- After a request to put an entry aside that returned, a request for its identity is a miss.
  quarantine_invalid-miss :
      (unique : String) (identity : CacheIdentity) (s : Store B) {name : Option String}
      → (quarantine_invalid files h unique identity s).0 ≡ ok name
      → read_validated files h identity (quarantine_invalid files h unique identity s).1 ≡ ok none
  unfolding quarantine_invalid read_validated
  quarantine_invalid-miss unique identity s {name} e =
      let key = cache_key h identity in
      elim (Bool-cases (is_sha256 key)) [
        | inr bad ↦ cc
        | inl good ↦ elim (Option-cases (lookup key s.entries)) [
          | inl free ↦ rw good (rw free (rw free refl))
          | inr (d, there) ↦ elim (Result-cases (validate_entry files h identity d)) [
            | inl (a, valid) ↦ cc
            | inr (x, invalid) ↦
                let gone : lookup key (remove key s.entries) ≡ none =
                  rw (lookup-remove key key s.entries) (rw (eq_refl key) refl) in
                rw good (rw there (rw invalid (rw gone refl)))
          ]
        ]
      ]

  module _ (env : Env) (task : TaskSpec) where
    -- The state file has the task with the given status.
    abbrev pub IsAt : TaskStatus → StateFile → Type 0
    IsAt t file =
        (s : SchedulerState) × (r : TaskStateRecord) × (file ≡ holds s)
        × (lookup task.task_id s.tasks ≡ some r)
        × (r.state ≡ t)

    -- What the outcome says: a task that is counted has that status; a hit is complete, its artifact
    -- is what a request validates, and the index has its row; a queued task is running, its artifact is
    -- a miss, and its queue is that of its device; any other task is not pending.
    abbrev pub Truthful : Outcome → World B → Type 0
    Truthful counted_failed w = IsAt failed w.file
    Truthful counted_blocked w = IsAt blocked w.file
    Truthful counted_cancelled w = IsAt cancelled w.file
    Truthful cache_hit w =
        IsAt complete w.file
        × (a : CacheArtifact) × (read_validated files h task.cache_identity w.store ≡ ok (some a))
        × IsIndexed env.indexed_at a w.index
    Truthful not_pending w = (t : TaskStatus) × IsAt t w.file × (is_pending t ≡ false)
    Truthful queued_cpu w =
        IsAt running w.file
        × (read_validated files h task.cache_identity w.store ≡ ok none)
        × (task.cache_identity.device_policy ≡ cpu)
    Truthful queued_gpu w =
        IsAt running w.file
        × (read_validated files h task.cache_identity w.store ≡ ok none)
        × (task.cache_identity.device_policy ≡ cuda)

    -- No outcome says nothing yet.
    abbrev TruthfulIfAny : Option Outcome → World B → Type 0
    TruthfulIfAny none w = Unit
    TruthfulIfAny (some outcome) w = Truthful outcome w

    -- A transition of the task that returned leaves it with the requested status.
    move_task-IsAt :
        (now : ℕ) (a : Request) (w : World B) {r : TaskStateRecord}
        → (move_task files h env now task.task_id a w).0 ≡ ok r
        → IsAt a.to_state (move_task files h env now task.task_id a w).1.file
    unfolding move_task next_record store_task
    move_task-IsAt now a w {r} e =
        let (s, old, held, found, permitted, new, left) =
          transition_ok h now env.pid task.task_id a w.file
            (ap (λ x. (x, (transition h now env.pid task.task_id a w.file).1)) e) in
        (
          store_task task.task_id r s,
          r,
          left,
          rw (lookup-insert task.task_id task.task_id r s.tasks) (rw (eq_refl task.task_id) refl),
          ap (λ x. x.state) new,
        )

    read_task-IsAt :
        (w : World B) (r : TaskStateRecord)
        → read_task files h env task.task_id w ≡ ok r
        → IsAt r.state w.file
    unfolding read_task
    read_task-IsAt w r e =
        let (s, readable, found) = >>=-eq-ok (read_state h w.file) _ e in
        (
          s,
          r,
          (read_state-holds h w.file readable).0,
          find_task_lem Error.key_error task.task_id s found,
          refl,
        )

    -- An artifact that is indexed is a hit, if the task is complete and a request validates it.
    hit-Truthful :
        (a : CacheArtifact) (w : World B)
        → IsAt complete w.file
        → read_validated files h task.cache_identity w.store ≡ ok (some a)
        → (index_artifact files h env a w).0 ≡ ok tt
        → Truthful cache_hit (index_artifact files h env a w).1
    unfolding index_artifact
    hit-Truthful a w done valid written =
        (done, a, valid, add-IsIndexed env.indexed_at a w.index written)

    resume_complete-Truthful :
        (found : Result (Option CacheArtifact)) (o : Option CacheArtifact) (w : World B)
        → IsAt complete w.file
        → read_validated files h task.cache_identity w.store ≡ found
        → or_none found ≡ ok o
        → Returns TruthfulIfAny (resume_complete files h env task o w)
    unfolding resume_complete
    resume_complete-Truthful found none w done read e =
        and_then-Returns TruthfulIfAny
          (move_task files h env env.reset_at task.task_id reset_invalid w) _
          (λ _ _.
            and_then-Returns TruthfulIfAny (put_entry_aside files h env task.cache_identity _) _
              (λ _ _. ok-Returns TruthfulIfAny none _ tt))
    resume_complete-Truthful (ok o) (some a) w done read e =
        and_then-Returns TruthfulIfAny (index_artifact files h env a w) _ (λ _ written.
          ok-Returns TruthfulIfAny (some cache_hit) _ (hit-Truthful a w done (read ∙ e) written))
    resume_complete-Truthful (err cache_integrity) (some a) w done read e = cc
    resume_complete-Truthful (err x) (some a) w done read e = cc

    resume_task-Truthful :
        (t : TaskStatus) (w : World B)
        → IsAt t w.file
        → Returns TruthfulIfAny (resume_task files h env task t w)
    unfolding resume_task
    resume_task-Truthful failed w at =
        if-Returns TruthfulIfAny env.retry_failed _ _
          (and_then-Returns TruthfulIfAny
            (move_task files h env env.retried_at task.task_id explicit_retry w) _
            (λ _ _. ok-Returns TruthfulIfAny none _ tt))
          (ok-Returns TruthfulIfAny (some counted_failed) w at)
    resume_task-Truthful blocked w at = ok-Returns TruthfulIfAny (some counted_blocked) w at
    resume_task-Truthful cancelled w at = ok-Returns TruthfulIfAny (some counted_cancelled) w at
    resume_task-Truthful complete w at =
        and_then-Returns TruthfulIfAny
          (or_none (read_validated files h task.cache_identity w.store), w) _
          (λ o e. resume_complete-Truthful _ o w at refl e)
    resume_task-Truthful pending w at = ok-Returns TruthfulIfAny none w tt
    resume_task-Truthful running w at = ok-Returns TruthfulIfAny none w tt

    complete_from_cache-Truthful :
        (a : CacheArtifact) (w : World B)
        → read_validated files h task.cache_identity w.store ≡ ok (some a)
        → Returns Truthful (complete_from_cache files h env task a w)
    unfolding complete_from_cache finish_hit move_task index_artifact
    complete_from_cache-Truthful a w valid =
        let started = move_task files h env env.started_at task.task_id start_hit w in
        let finished =
          move_task files h env env.finished_at task.task_id (finish_hit a) started.1 in
        and_then-Returns Truthful started _ (λ _ _. and_then-Returns Truthful finished _ (λ _ moved.
          and_then-Returns Truthful (index_artifact files h env a finished.1) _ (λ _ written.
            ok-Returns Truthful cache_hit _ (
              hit-Truthful a finished.1
                (move_task-IsAt env.finished_at (finish_hit a) started.1 moved) valid written))))

    queue_of-Truthful :
        (policy : DevicePolicy) (w : World B)
        → task.cache_identity.device_policy ≡ policy
        → IsAt running w.file
        → read_validated files h task.cache_identity w.store ≡ ok none
        → Truthful (queue_of files h env policy) w
    queue_of-Truthful cpu w same live miss = (live, miss, same)
    queue_of-Truthful cuda w same live miss = (live, miss, same)

    queue_task-Truthful :
        (w : World B)
        → read_validated files h task.cache_identity w.store ≡ ok none
        → Returns Truthful (queue_task files h env task w)
    unfolding queue_task start_scheduled move_task
    queue_task-Truthful w miss =
        and_then-Returns Truthful
          (move_task files h env env.started_at task.task_id start_scheduled w) _
          (λ _ moved.
            ok-Returns Truthful (queue_of files h env task.cache_identity.device_policy) _ (
              queue_of-Truthful task.cache_identity.device_policy _ refl
                (move_task-IsAt env.started_at start_scheduled w moved) miss))

    schedule_found-Truthful :
        (found : Result (Option CacheArtifact)) (w : World B)
        → read_validated files h task.cache_identity w.store ≡ found
        → Returns Truthful (schedule_found files h env task found w)
    unfolding schedule_found put_entry_aside
    schedule_found-Truthful (ok (some a)) w e = complete_from_cache-Truthful a w e
    schedule_found-Truthful (ok none) w e = queue_task-Truthful w e
    schedule_found-Truthful (err cache_integrity) w e =
        and_then-Returns Truthful (put_entry_aside files h env task.cache_identity w) _ (λ _ aside.
          queue_task-Truthful _
            (quarantine_invalid-miss env.unique task.cache_identity w.store aside))
    schedule_found-Truthful (err x) w e = record { returned = λ y r. cc }

    schedule_record-Truthful :
        (r : TaskStateRecord) (w : World B)
        → IsAt r.state w.file
        → Returns Truthful (schedule_record files h env task r w)
    unfolding schedule_record
    schedule_record-Truthful r w at = elim (Bool-cases (is_pending r.state)) [
      | inl waiting ↦ rw waiting (schedule_found-Truthful _ w refl)
      | inr other ↦ rw other (ok-Returns Truthful not_pending w (r.state, at, other))
    ]

    finish_round-Truthful :
        (o : Option Outcome) (w : World B)
        → TruthfulIfAny o w
        → Returns Truthful (finish_round files h env task o w)
    unfolding finish_round schedule_task
    finish_round-Truthful (some outcome) w t = ok-Returns Truthful outcome w t
    finish_round-Truthful none w t =
        and_then-Returns Truthful (read_task files h env task.task_id w, w) _
          (λ r e. schedule_record-Truthful r w (read_task-IsAt w r e))

    -- When the preparation of a task returns, its outcome is true of what it leaves. A task that is
    -- counted as failed, blocked or cancelled has that status. A hit is complete, a request validates
    -- its artifact, and the index has the artifact's row. A queued task is running, its artifact is a
    -- miss, and its queue is that of its device. Any other task is not pending.
    pub prepare_task-Truthful :
        (w : World B) (o : Outcome)
        → (prepare_task files h env task w).0 ≡ ok o
        → Truthful o (prepare_task files h env task w).1
    unfolding prepare_task
    prepare_task-Truthful w o e =
        (and_then-Returns Truthful (read_task files h env task.task_id w, w) _
            (λ r read.
              and_then-Returns Truthful (resume_task files h env task r.state w) _ (λ found resumed.
                finish_round-Truthful found _ (
                  (resume_task-Truthful r.state w (read_task-IsAt w r read)).returned found
                    resumed)))).returned
          o e
