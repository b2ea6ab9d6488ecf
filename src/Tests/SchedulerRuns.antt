-- ===== src/Tests/SchedulerRuns.antt =====
-- The preparation of a task on a store with its artifact, and on records of each kind.
use schema_guard.Base.{◌≡◌, refl, ok, some, [], ◌∷◌, false}
use schema_guard.Base.Dict.{lookup}
use schema_guard.Cache.Store.{read_validated, load_payload}
use schema_guard.Cache.Index.{absent, add}
use schema_guard.Runner.Record.{TaskStateRecord, state_is_valid}
use schema_guard.Runner.State.{missing, holds, read_state, find_task}
use schema_guard.Runner.State.Steps.{init, run_ops}
use schema_guard.Runner.State.Sound.{IsSound, run_ops-IsSound}
use schema_guard.Runner.Scheduler.{
  World, Env, cache_hit, read_task, prepare_task, resume_task, resume_complete, finish_round,
  index_artifact,
}
use schema_guard.Runner.Scheduler.Truthful.{Truthful, prepare_task-Truthful}
use schema_guard.Runner.Scheduler.Keeps.{prepare_task_keeps}
use schema_guard.Tests.Samples.{
  sample_digest, sample_id, sample_identity, sample_task, sample_plan, complete_record, state_of,
}
use schema_guard.Tests.StoreRuns.{Content, sample_files, sample_artifact, sample_store, stored_lem}

abbrev pub sample_env : Env
sample_env = record {
  pid = 7;
  retried_at = 40;
  reset_at = 41;
  started_at = 42;
  finished_at = 43;
  indexed_at = 44;
  unique = "0f";
  retry_failed = false;
}

-- A new plan, whose artifact an earlier run has left in the cache.
abbrev fresh_world : World Content
fresh_world = record {
  file = run_ops sample_digest (init 10 sample_plan ∷ []) missing;
  store = sample_store;
  index = absent;
}

abbrev world_of : TaskStateRecord → World Content
world_of r = record { file = holds (state_of r); store = sample_store; index = absent }

prepare_task_keeps_example :
    let after = (prepare_task sample_files sample_digest sample_env sample_task fresh_world).1 in
    IsSound sample_digest after.file
    × (read_validated sample_files sample_digest sample_identity after.store
        ≡ ok (some sample_artifact))
    × (load_payload sample_files sample_digest sample_identity after.store
        ≡ load_payload sample_files sample_digest sample_identity sample_store)
prepare_task_keeps_example =
    prepare_task_keeps sample_files sample_digest sample_env sample_task fresh_world sample_identity
      sample_artifact (run_ops-IsSound sample_digest (init 10 sample_plan ∷ [])) (λ _. refl)
      stored_lem

read_complete :
    read_task sample_files sample_digest sample_env sample_id (world_of complete_record)
    ≡ ok complete_record
unfolding read_task read_state find_task state_is_valid lookup
read_complete = refl

prepare_hits :
    (prepare_task sample_files sample_digest sample_env sample_task (world_of complete_record)).0
    ≡ ok cache_hit
unfolding prepare_task resume_task resume_complete finish_round index_artifact add
prepare_hits = rw read_complete (rw stored_lem refl)

prepare_task-Truthful_example :
    Truthful sample_files sample_digest sample_env sample_task cache_hit
      (prepare_task sample_files sample_digest sample_env sample_task (world_of complete_record)).1
prepare_task-Truthful_example =
    prepare_task-Truthful sample_files sample_digest sample_env sample_task
      (world_of complete_record) cache_hit prepare_hits
