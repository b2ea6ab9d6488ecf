-- ===== src/Tests/ExecuteRuns.antt =====
-- The execution of a task whose worker computes its payload.
use schema_guard.Base.{◌≡◌, refl, ok, none, some, [], ◌∷◌, true, false, pos, first_chars}
use schema_guard.Base.Dict.{lookup, insert, contains}
use schema_guard.Hashing.{sha256_canonical_json}
use schema_guard.Cache.Identity.{
  is_sha256, is_real_sha256, identity_is_valid, identity_eq, artifact_kind_text, cache_key,
}
use schema_guard.Cache.Manifest.{manifest_is_valid, marker_is_valid, is_utc}
use schema_guard.Cache.Entry.{
  build_transaction, new_manifest, new_marker, transaction_files, validate_directory,
  is_entry_layout, open_file, entry_matches, artifact_of, entry_path,
}
use schema_guard.Cache.Store.{
  moved, validate_entry, read_validated, publish_file, publish_stream, install,
}
use schema_guard.Cache.Index.{absent, add, upsert}
use schema_guard.Runner.Resource.{ResourceRecord, utc}
use schema_guard.Runner.State.{holds, transition, heartbeat, set_worker_pid}
use schema_guard.Runner.State.Steps.{beat, assign, run_ops, run_op}
use schema_guard.Runner.Scheduler.{World, move_task, index_artifact}
use schema_guard.Runner.Execute.{
  WorkerExecution, Surroundings, ready, computed, finish, output_matches, check_output,
  publish_output, accept_output, run_worker, compute_task, execute_found, execute_locked,
}
use schema_guard.Runner.Execute.Published.{execute_locked-Backed}
use schema_guard.Tests.Samples.{
  sample_digest, sample_id, ones, sample_identity, sample_task, running_record, state_of,
}
use schema_guard.Tests.StoreRuns.{Content, sample_files, sample_artifact, no_store, payload}
use schema_guard.Tests.SchedulerRuns.{sample_env}

abbrev measured : ResourceRecord
measured = record {
  started_at = utc 21;
  ended_at = utc 39;
  wall_seconds = 18;
  cpu_seconds = some 9;
  worker_pid = some 9;
  exit_code = some (pos 0);
  peak_worker_rss_mib = some 100;
  peak_process_tree_rss_mib = some 120;
  gpu_allocated_mib = none;
  gpu_reserved_mib = none;
  gpu_free_before_mib = none;
  timed_out = false;
  soft_limit_warning = false;
  hard_limit_passed = true;
  cleanup_passed = true;
  telemetry_complete = true;
  failure_category = none;
  failure_reason = none;
}

abbrev passing : WorkerExecution
passing = record {
  passed = true;
  resource = measured;
  result = some (record { task_id = some sample_id; payload_sha256 = some ones });
  failure_category = none;
  failure_reason = none;
}

abbrev around : Surroundings Content
around = record {
  published_at = 7;
  replace = moved;
  preflight = ready;
  worker = record {
    during = assign sample_id 9 ∷ beat 30 sample_id ∷ [];
    outcome = passing;
    produced = some (record {
      checked = payload;
      source = record { hashed = payload; measured = payload; copied = payload };
    });
  };
  exception_text = λ e. "CacheIntegrityError";
  category_text = λ c. "FAIL_MODEL_RUNTIME";
}

abbrev running_world : World Content
running_world = record { file = holds (state_of running_record); store = no_store; index = absent }

executed :
    (execute_locked sample_files sample_digest sample_env around sample_task running_world).0
    ≡ ok (computed passing sample_artifact)
unfolding execute_locked execute_found compute_task run_worker check_output output_matches
    accept_output publish_output index_artifact move_task finish read_validated publish_file
    publish_stream install build_transaction new_manifest new_marker transaction_files
    validate_entry validate_directory is_entry_layout contains open_file lookup insert
    manifest_is_valid marker_is_valid identity_is_valid is_real_sha256 is_sha256 is_utc
    entry_matches artifact_of identity_eq cache_key sha256_canonical_json entry_path
    artifact_kind_text transition run_ops run_op add upsert heartbeat set_worker_pid first_chars
executed = refl

execute_locked-Backed_example :
    read_validated sample_files sample_digest sample_identity
      (execute_locked sample_files sample_digest sample_env around sample_task
        running_world).1.store
    ≡ ok (some sample_artifact)
execute_locked-Backed_example =
    execute_locked-Backed sample_files sample_digest sample_env around sample_task running_world
      (computed passing sample_artifact) executed
