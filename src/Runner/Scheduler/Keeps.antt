-- ===== src/Runner/Scheduler/Keeps.antt =====
-- runner/scheduler.py: what every preparation of a task preserves, whether it returns or raises.
use schema_guard.Base.{
  ◌≡◌, refl, ◌∙◌, ℕ, String, Option, none, some, Result, ok, err, cache_integrity, [], ◌∷◌, inl,
  inr, Bool-cases,
}
use schema_guard.Hashing.{Digest}
use schema_guard.Cache.Identity.{CacheIdentity, cache_key}
use schema_guard.Cache.Files.{Files}
use schema_guard.Cache.Entry.{CacheArtifact}
use schema_guard.Cache.Store.{read_validated, load_payload}
use schema_guard.Cache.Store.Immutable.{put_aside, run_store_op, run_store_ops}
use schema_guard.Cache.Store.Reads.{run_store_ops-read_validated}
use schema_guard.Runner.Task.{TaskSpec}
use schema_guard.Runner.Record.{TaskStatus, complete, failed, TaskStateRecord}
use schema_guard.Runner.Transition.{Request, is_pending}
use schema_guard.Runner.State.Steps.{move, run_op}
use schema_guard.Runner.State.Sound.{IsSound, run_op-IsSound}
use schema_guard.Runner.Scheduler.{
  World, Env, Outcome, and_then, or_none, index_artifact, read_task, resume_task, schedule_task,
  schedule_found, schedule_record, finish_round, resume_complete, complete_from_cache, queue_task,
  prepare_task, move_task, put_entry_aside, explicit_retry, reset_invalid, start_hit, finish_hit,
  start_scheduled,
}

and_then-keeps {κ} :
    {B A C : Type 0} (P : World B → Type κ) (m : Result A × World B)
    (next : A → World B → Result C × World B)
    → P m.1
    → ((a : A) (w : World B) → P w → P (next a w).1)
    → P (and_then m next).1
and_then-keeps P (ok a, w) next p keep = keep a w p
and_then-keeps P (err e, w) next p keep = p

module _ {B : Type 0} (files : Files B) (h : Digest) (env : Env) (task : TaskSpec)
    (P : World B → Type 0)
    (moves : (now : ℕ) (id : String) (a : Request) (w : World B)
      → P w
      → P (move_task files h env now id a w).1)
    (indexes : (a : CacheArtifact) (w : World B) → P w → P (index_artifact files h env a w).1)
    (asides : (w : World B) → P w → P (put_entry_aside files h env task.cache_identity w).1) where
  resume_complete-keeps :
      (o : Option CacheArtifact) (w : World B) → P w → P (resume_complete files h env task o w).1
  unfolding resume_complete
  resume_complete-keeps (some a) w p =
      and_then-keeps P (index_artifact files h env a w) _ (indexes a w p) (λ _ w p. p)
  resume_complete-keeps none w p =
      and_then-keeps P (move_task files h env env.reset_at task.task_id reset_invalid w) _
        (moves env.reset_at task.task_id reset_invalid w p)
        (λ _ w p.
          and_then-keeps P (put_entry_aside files h env task.cache_identity w) _ (asides w p)
            (λ _ w p. p))

  resume_task-keeps : (t : TaskStatus) (w : World B) → P w → P (resume_task files h env task t w).1
  unfolding resume_task move_task
  resume_task-keeps failed w p = elim (Bool-cases env.retry_failed) [
    | inr off ↦ rw off p
    | inl on ↦ rw on (
        and_then-keeps P (move_task files h env env.retried_at task.task_id explicit_retry w) _
          (moves env.retried_at task.task_id explicit_retry w p) (λ _ w p. p))
  ]
  resume_task-keeps complete w p =
      and_then-keeps P (or_none (read_validated files h task.cache_identity w.store), w) _ p
        resume_complete-keeps
  resume_task-keeps _ w p = p

  complete_from_cache-keeps :
      (a : CacheArtifact) (w : World B) → P w → P (complete_from_cache files h env task a w).1
  unfolding complete_from_cache
  complete_from_cache-keeps a w p =
      and_then-keeps P (move_task files h env env.started_at task.task_id start_hit w) _
        (moves env.started_at task.task_id start_hit w p)
        (λ _ w p.
          and_then-keeps P (move_task files h env env.finished_at task.task_id (finish_hit a) w) _
            (moves env.finished_at task.task_id (finish_hit a) w p)
            (λ _ w p.
              and_then-keeps P (index_artifact files h env a w) _ (indexes a w p) (λ _ w p. p)))

  queue_task-keeps : (w : World B) → P w → P (queue_task files h env task w).1
  unfolding queue_task
  queue_task-keeps w p =
      and_then-keeps P (move_task files h env env.started_at task.task_id start_scheduled w) _
        (moves env.started_at task.task_id start_scheduled w p) (λ _ w p. p)

  schedule_found-keeps :
      (found : Result (Option CacheArtifact)) (w : World B)
      → P w
      → P (schedule_found files h env task found w).1
  unfolding schedule_found
  schedule_found-keeps (ok (some a)) w p = complete_from_cache-keeps a w p
  schedule_found-keeps (ok none) w p = queue_task-keeps w p
  schedule_found-keeps (err cache_integrity) w p =
      and_then-keeps P (put_entry_aside files h env task.cache_identity w) _ (asides w p)
        (λ _ w p. queue_task-keeps w p)
  schedule_found-keeps (err e) w p = p

  schedule_record-keeps :
      (r : TaskStateRecord) (w : World B) → P w → P (schedule_record files h env task r w).1
  unfolding schedule_record
  schedule_record-keeps r w p = elim (Bool-cases (is_pending r.state)) [
    | inl waiting ↦
        rw waiting (schedule_found-keeps (read_validated files h task.cache_identity w.store) w p)
    | inr other ↦ rw other p
  ]

  finish_round-keeps :
      (o : Option Outcome) (w : World B) → P w → P (finish_round files h env task o w).1
  unfolding finish_round schedule_task
  finish_round-keeps (some outcome) w p = p
  finish_round-keeps none w p =
      and_then-keeps P (read_task files h env task.task_id w, w) _ p schedule_record-keeps

  pub prepare_task-keeps : (w : World B) → P w → P (prepare_task files h env task w).1
  unfolding prepare_task
  prepare_task-keeps w p =
      and_then-keeps P (read_task files h env task.task_id w, w) _ p
        (λ r w p.
          and_then-keeps P (resume_task files h env task r.state w) _
            (resume_task-keeps r.state w p) finish_round-keeps)

module _ {B : Type 0} (files : Files B) (h : Digest) (env : Env) where
  -- The preparation of a task, whether it returns or raises, leaves a sound state file sound.
  prepare_task-IsSound :
      (task : TaskSpec) (w : World B)
      → IsSound h w.file
      → IsSound h (prepare_task files h env task w).1.file
  unfolding move_task index_artifact put_entry_aside run_op
  prepare_task-IsSound task w sound =
      prepare_task-keeps files h env task (λ w. IsSound h w.file)
        (λ now id a w p. run_op-IsSound h (move now env.pid id a) w.file p) (λ a w p. p) (λ w p. p)
        w sound

  -- The preparation of a task, whether it returns or raises, loses no valid artifact: what a
  -- request validated before, it validates after, with the same payload, if its identity is that
  -- of the task or has another key.
  prepare_task-read_validated :
      (task : TaskSpec) (w : World B) (identity : CacheIdentity) (a : CacheArtifact)
      → (cache_key h task.cache_identity ≡ cache_key h identity → task.cache_identity ≡ identity)
      → read_validated files h identity w.store ≡ ok (some a)
      → let s = (prepare_task files h env task w).1.store in
        (read_validated files h identity s ≡ ok (some a))
        × (load_payload files h identity s ≡ load_payload files h identity w.store)
  unfolding move_task index_artifact put_entry_aside run_store_op run_store_ops
  prepare_task-read_validated task w identity a apart valid =
      prepare_task-keeps files h env task
        (λ v.
          (read_validated files h identity v.store ≡ ok (some a))
          × (load_payload files h identity v.store ≡ load_payload files h identity w.store))
        (λ now id a w p. p) (λ a w p. p)
        (λ v p.
          let (again, same) =
            run_store_ops-read_validated files h identity v.store a
              (put_aside env.unique task.cache_identity ∷ []) p.0 (apart, tt) in
          (again, same ∙ p.1))
        w (valid, refl)

  -- The preparation of a task, whether it returns or raises, leaves a sound state file sound, and
  -- loses no valid artifact: what a request validated before, it validates after, with the same
  -- payload, if its identity is that of the task or has another key.
  pub prepare_task_keeps :
      (task : TaskSpec) (w : World B) (identity : CacheIdentity) (a : CacheArtifact)
      → IsSound h w.file
      → (cache_key h task.cache_identity ≡ cache_key h identity → task.cache_identity ≡ identity)
      → read_validated files h identity w.store ≡ ok (some a)
      → let after = (prepare_task files h env task w).1 in
        IsSound h after.file
        × (read_validated files h identity after.store ≡ ok (some a))
        × (load_payload files h identity after.store ≡ load_payload files h identity w.store)
  prepare_task_keeps task w identity a sound apart valid =
      let (again, same) = prepare_task-read_validated task w identity a apart valid in
      (prepare_task-IsSound task w sound, again, same)
