-- ===== src/Runner/Execute/Published.antt =====
-- runner/scheduler.py: a task is reported as computed or as a hit only with an artifact that is in
-- the cache.
use schema_guard.Base.{
  ◌≡◌, refl, inl, inr, true, false, Option, none, some, Result, ok, err, Error, cache_integrity,
  Bool-cases,
}
use schema_guard.Hashing.{Digest}
use schema_guard.Cache.Files.{Files}
use schema_guard.Cache.Entry.{CacheArtifact}
use schema_guard.Cache.Store.{read_validated}
use schema_guard.Cache.Store.Published.{publish_file-read_validated}
use schema_guard.Runner.Task.{TaskSpec}
use schema_guard.Runner.Record.{TaskStateRecord}
use schema_guard.Runner.Transition.{is_running}
use schema_guard.Runner.Scheduler.{
  World, Env, and_then, move_task, index_artifact, put_entry_aside, read_task,
}
use schema_guard.Runner.Scheduler.Returns.{Returns, ok-Returns, and_then-Returns}
use schema_guard.Runner.Execute.{
  WorkerExecution, Produced, Preflight, ready, telemetry_missing, budget_refused, Surroundings,
  Executed, taken_from_cache, computed, left_blocked, left_failed, source_of, check_output,
  publish_output, accept_output, reject_output, run_worker, block_task, compute_task,
  take_from_cache, finish, execute_found, handle_exception, guarded, execute_locked,
}

module _ {B : Type 0} (files : Files B) (h : Digest) (env : Env) (around : Surroundings B)
    (task : TaskSpec) where
  -- The artifact that a result reports is what the cache validates for the task.
  abbrev pub Backed : Executed → World B → Type 0
  Backed (taken_from_cache a) w = read_validated files h task.cache_identity w.store ≡ ok (some a)
  Backed (computed o a) w = read_validated files h task.cache_identity w.store ≡ ok (some a)
  Backed left_blocked w = Unit
  Backed (left_failed category) w = Unit

  take_from_cache-Backed :
      (a : CacheArtifact) (w : World B)
      → read_validated files h task.cache_identity w.store ≡ ok (some a)
      → Returns Backed (take_from_cache files h env around task a w)
  unfolding take_from_cache move_task index_artifact
  take_from_cache-Backed a w valid =
      and_then-Returns Backed
        (move_task files h env env.finished_at task.task_id
          (finish "VALIDATED_CACHE_HIT_AFTER_LOCK" none true a) w)
        _
        (λ _ _.
          and_then-Returns Backed (index_artifact files h env a _) _
            (λ _ _. ok-Returns Backed (taken_from_cache a) _ valid))

  accept_output-Backed :
      (o : WorkerExecution) (produced : Option (Produced B)) (w : World B)
      → Returns Backed (accept_output files h env around task o produced w)
  unfolding accept_output publish_output move_task index_artifact
  accept_output-Backed o produced w =
      and_then-Returns Backed (publish_output files h env around task produced w) _ (λ p published.
        and_then-Returns Backed (index_artifact files h env p.artifact _) _ (λ _ _.
          and_then-Returns Backed
            (move_task files h env env.finished_at task.task_id
              (finish "ARTIFACT_VALIDATED_AND_PUBLISHED" (some o.resource) false p.artifact) _)
            _
            (λ _ _. ok-Returns Backed (computed o p.artifact) _ (
              publish_file-read_validated files h around.published_at around.replace
                task.cache_identity (source_of files h env around produced) task.task_id w.store p
                published))))

  -- A single transition whose result reports no artifact.
  moved-Backed :
      (m : Result TaskStateRecord × World B) (x : Executed)
      → ((w : World B) → Backed x w)
      → Returns Backed (and_then m (λ _ w. (ok x, w)))
  moved-Backed m x b = and_then-Returns Backed m _ (λ _ _. ok-Returns Backed x _ (b _))

  run_worker-Backed : (w : World B) → Returns Backed (run_worker files h env around task w)
  unfolding run_worker reject_output accept_output check_output
  run_worker-Backed w =
      let o = check_output files h env around task around.worker.outcome around.worker.produced in
      elim (Bool-cases o.passed) [
        | inl good ↦ rw good (accept_output-Backed o around.worker.produced _)
        | inr bad ↦ rw bad (moved-Backed _ (left_failed _) (λ w. tt))
      ]

  compute_task-Backed :
      (p : Preflight) (w : World B) → Returns Backed (compute_task files h env around task p w)
  unfolding compute_task block_task
  compute_task-Backed ready w = run_worker-Backed w
  compute_task-Backed telemetry_missing w = moved-Backed _ left_blocked (λ w. tt)
  compute_task-Backed (budget_refused true message) w = moved-Backed _ left_blocked (λ w. tt)
  compute_task-Backed (budget_refused false message) w = moved-Backed _ left_blocked (λ w. tt)

  execute_found-Backed :
      (found : Result (Option CacheArtifact)) (w : World B)
      → read_validated files h task.cache_identity w.store ≡ found
      → Returns Backed (execute_found files h env around task found w)
  unfolding execute_found
  execute_found-Backed (ok (some a)) w e = take_from_cache-Backed a w e
  execute_found-Backed (ok none) w e = compute_task-Backed around.preflight w
  execute_found-Backed (err cache_integrity) w e =
      and_then-Returns Backed (put_entry_aside files h env task.cache_identity w) _
        (λ _ _. compute_task-Backed around.preflight _)
  execute_found-Backed (err x) w e = record { returned = λ y r. cc }

  handle_exception-Backed :
      (e : Error) (w : World B) → Returns Backed (handle_exception files h env around task e w)
  unfolding handle_exception
  handle_exception-Backed e w =
      and_then-Returns Backed (read_task files h env task.task_id w, w) _
        (λ r _. elim (Bool-cases (is_running r.state)) [
          | inl still ↦ rw still (moved-Backed _ (left_failed _) (λ w. tt))
          | inr over ↦ rw over (ok-Returns Backed (left_failed _) w tt)
        ])

  guarded-Backed :
      (m : Result Executed × World B)
      → Returns Backed m
      → Returns Backed (guarded files h env around task m)
  guarded-Backed (ok x, w) r = r
  guarded-Backed (err e, w) r = handle_exception-Backed e w

  -- Whatever the worker does, an execution that reports a task as computed or as taken from the
  -- cache leaves a cache in which a request for the task validates just that artifact.
  pub execute_locked-Backed :
      (w : World B) (x : Executed)
      → (execute_locked files h env around task w).0 ≡ ok x
      → Backed x (execute_locked files h env around task w).1
  unfolding execute_locked
  execute_locked-Backed w x e =
      (guarded-Backed _ (
          execute_found-Backed (read_validated files h task.cache_identity w.store) w
            refl)).returned
        x e
