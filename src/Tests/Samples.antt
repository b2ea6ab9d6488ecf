-- ===== src/Tests/Samples.antt =====
-- Sample values: one task, its plan, and states that hold it.
use schema_guard.Base.{String, false, none, some, [], ◌∷◌}
use schema_guard.Hashing.{Digest}
use schema_guard.Cache.Identity.{CacheIdentity, cpu, probe}
use schema_guard.Runner.Task.{TaskSpec, synthetic_payload}
use schema_guard.Runner.Plan.{RunPlan}
use schema_guard.Runner.Resource.{utc, blocked_gpu_unavailable}
use schema_guard.Runner.Record.{
  TaskStatus, pending, running, complete, blocked, TaskAttempt, TaskTransition, TaskStateRecord,
  SchedulerState,
}
use schema_guard.Runner.Transition.{Request}

abbrev pub ones : String
ones = "1111111111111111111111111111111111111111111111111111111111111111"

abbrev pub sample_id : String
sample_id = "aaaaaaaaaaaaaaaaaaaaaaaaaaaaaaaaaaaaaaaaaaaaaaaaaaaaaaaaaaaaaaaa"

-- A digest for runs with one task: every value has the same text.
abbrev pub sample_digest : Digest
sample_digest = λ v. sample_id

abbrev pub sample_identity : CacheIdentity
sample_identity = record {
  schema_version = 1;
  dataset_sha256 = ones;
  split_sha256 = ones;
  view_certificate_sha256 = ones;
  model_spec_sha256 = ones;
  model_parameters_sha256 = ones;
  checkpoint_sha256 = none;
  dependency_lock_sha256 = ones;
  source_implementation_sha256 = ones;
  seed = 1729;
  device_policy = cpu;
  artifact_kind = probe;
}

abbrev pub sample_task : TaskSpec
sample_task = record {
  task_id = sample_id;
  task_name = "synthetic-cache-alpha";
  cache_identity = sample_identity;
  operation = synthetic_payload;
  payload_token = "payload-alpha";
  delay_seconds = 0;
  timeout_seconds = 300_000_000;
}

abbrev pub sample_plan : RunPlan
sample_plan = record {
  schema_version = 1;
  tasks = sample_task ∷ [];
  random_seed = 1729;
  cpu_workers = 2;
  gpu_workers = 1;
}

abbrev pub request : TaskStatus → Request
request t = record {
  to_state = t;
  reason = none;
  failure_category = none;
  resource = none;
  artifact_path = none;
  artifact_sha256 = none;
  cache_hit = false;
  retry_failed = false;
}

-- The request of a worker whose artifact is published.
abbrev pub published : Request
published = record {
  to_state = complete;
  reason = some "ARTIFACT_VALIDATED_AND_PUBLISHED";
  failure_category = none;
  resource = none;
  artifact_path = some "aa/entry/payload.bin";
  artifact_sha256 = some ones;
  cache_hit = false;
  retry_failed = false;
}

abbrev pub open_attempt : TaskAttempt
open_attempt = record {
  attempt_number = 1;
  state = running;
  started_at = utc 20;
  heartbeat_at = utc 20;
  ended_at = none;
  owner_pid = some 7;
  worker_pid = none;
  resource = none;
  failure_category = none;
  reason = none;
}

abbrev pub entry : TaskStatus → TaskStatus → TaskTransition
entry s t = record { from_state = s; to_state = t; timestamp = utc 20; reason = none }

abbrev pub pending_record : TaskStateRecord
pending_record = record {
  task = sample_task;
  state = pending;
  attempts = [];
  transitions = [];
  artifact_path = none;
  artifact_sha256 = none;
  cache_hit = false;
  failure_category = none;
  failure_reason = none;
  updated_at = utc 10;
}

abbrev pub running_record : TaskStateRecord
running_record = record pending_record {
  state = running;
  attempts = open_attempt ∷ [];
  transitions = entry pending running ∷ [];
  updated_at = utc 20;
}

abbrev pub blocked_record : TaskStateRecord
blocked_record = record pending_record {
  state = blocked;
  attempts = record open_attempt { state = blocked; ended_at = some (utc 30) } ∷ [];
  transitions = entry pending running ∷ entry running blocked ∷ [];
  failure_category = some blocked_gpu_unavailable;
}

abbrev pub complete_record : TaskStateRecord
complete_record = record pending_record {
  state = complete;
  attempts = record open_attempt { state = complete; ended_at = some (utc 30) } ∷ [];
  transitions = entry pending running ∷ entry running complete ∷ [];
  artifact_path = some "aa/entry/payload.bin";
  artifact_sha256 = some ones;
}

abbrev pub state_of : TaskStateRecord → SchedulerState
state_of r = record { schema_version = 1; plan_hash = sample_id; tasks = (sample_id, r) ∷ [] }
