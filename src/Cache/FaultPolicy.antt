-- ===== src/Cache/FaultPolicy.antt =====
-- cache/fault_policy.py: the frozen policy of the fault-injection evidence, and its digest.
use schema_guard.Base.{String, Bool, true, false, List, [], ◌∷◌}
use schema_guard.Base.Dict.{Dict, keys}
use schema_guard.Hashing.{Digest, text, bool, sha256_canonical_json, object}

pub record FaultExpectation : Type 0 where
  pub injection_point : String
  pub expected_failure_category : String
  pub expected_artifact_accepted : Bool
  pub expected_resume_behavior : String

expect : String → String → Bool → String → FaultExpectation
expect point category accepted behavior = record {
  injection_point = point;
  expected_failure_category = category;
  expected_artifact_accepted = accepted;
  expected_resume_behavior = behavior;
}

-- `FAULT_POLICY`
unfoldable pub fault_policy : Dict FaultExpectation
unfolding expect
fault_policy =
    (
      "payload_write_interrupted",
      expect "process stopped during payload write" "CACHE_MISS" false
          "RECOMPUTED_AFTER_INTERRUPTED_TRANSACTION",
    )
    ∷ (
      "completion_interrupted",
      expect "payload durable before completion marker" "CACHE_MISS" false
          "RECOMPUTED_AFTER_INTERRUPTED_TRANSACTION",
    )
    ∷ (
      "manifest_truncated",
      expect "manifest parser" "FAIL_CACHE_INTEGRITY" false "RECOMPUTED_AFTER_QUARANTINE",
    )
    ∷ (
      "payload_truncated",
      expect "payload checksum validation" "FAIL_CACHE_INTEGRITY" false
          "RECOMPUTED_AFTER_QUARANTINE",
    )
    ∷ (
      "completion_marker_missing",
      expect "completion marker validation" "FAIL_CACHE_INTEGRITY" false
          "RECOMPUTED_AFTER_QUARANTINE",
    )
    ∷ (
      "payload_checksum_wrong",
      expect "payload checksum validation" "FAIL_CACHE_INTEGRITY" false
          "RECOMPUTED_AFTER_QUARANTINE",
    )
    ∷ (
      "manifest_identity_wrong",
      expect "canonical identity validation" "FAIL_CACHE_INTEGRITY" false
          "RECOMPUTED_AFTER_QUARANTINE",
    )
    ∷ (
      "cache_key_wrong",
      expect "key recomputation" "FAIL_CACHE_INTEGRITY" false "RECOMPUTED_AFTER_QUARANTINE",
    )
    ∷ (
      "artifact_schema_wrong",
      expect "strict manifest schema validation" "FAIL_CACHE_INTEGRITY" false
          "RECOMPUTED_AFTER_QUARANTINE",
    )
    ∷ (
      "failed_artifact_candidate",
      expect "failed-state cache candidate" "FAIL_CACHE_INTEGRITY" false
          "RECOMPUTED_AFTER_QUARANTINE",
    )
    ∷ (
      "model_configuration_change",
      expect "change one scientific or implementation identity field" "CACHE_MISS" false
          "NEW_IDENTITY_REQUIRES_COMPUTE",
    )
    ∷ (
      "implementation_change",
      expect "change one scientific or implementation identity field" "CACHE_MISS" false
          "NEW_IDENTITY_REQUIRES_COMPUTE",
    )
    ∷ (
      "dependency_lock_change",
      expect "change one scientific or implementation identity field" "CACHE_MISS" false
          "NEW_IDENTITY_REQUIRES_COMPUTE",
    )
    ∷ (
      "dataset_checksum_change",
      expect "change one scientific or implementation identity field" "CACHE_MISS" false
          "NEW_IDENTITY_REQUIRES_COMPUTE",
    )
    ∷ (
      "split_checksum_change",
      expect "change one scientific or implementation identity field" "CACHE_MISS" false
          "NEW_IDENTITY_REQUIRES_COMPUTE",
    )
    ∷ (
      "view_certificate_change",
      expect "change one scientific or implementation identity field" "CACHE_MISS" false
          "NEW_IDENTITY_REQUIRES_COMPUTE",
    )
    ∷ (
      "checkpoint_checksum_change",
      expect "change one scientific or implementation identity field" "CACHE_MISS" false
          "NEW_IDENTITY_REQUIRES_COMPUTE",
    )
    ∷ (
      "device_policy_change",
      expect "change one scientific or implementation identity field" "CACHE_MISS" false
          "NEW_IDENTITY_REQUIRES_COMPUTE",
    )
    ∷ (
      "two_process_same_identity_publication",
      expect "two spawned writers publish identical bytes simultaneously" "ONE_VALIDATED_ARTIFACT"
          true "WINNING_ARTIFACT_REUSED",
    )
    ∷ (
      "same_key_different_payload",
      expect "publish different bytes for an already validated identity" "FAIL_CACHE_INTEGRITY" true
          "ORIGINAL_IMMUTABLE_ENTRY_RETAINED",
    )
    ∷ (
      "lock_holder_process_crash",
      expect "owner exits without executing lock-release cleanup" "PASS" false
          "LOCK_REACQUIRED_AFTER_OWNER_EXIT",
    )
    ∷ (
      "stale_lock_file_without_owner",
      expect "leave old lock-file bytes without an active OS lock" "PASS" false
          "LOCK_ACQUIRED_WITHOUT_DELETING_STALE_FILE",
    )
    ∷ (
      "worker_exceeds_hard_ram",
      expect "inject a measured process-tree RSS sample above configured hard cap"
          "FAIL_RESOURCE_LIMIT" false "NO_ARTIFACT_PUBLISHED",
    )
    ∷ (
      "worker_timeout",
      expect "sleep worker exceeds its strict wall-time deadline" "FAIL_TIMEOUT" false
          "NO_ARTIFACT_PUBLISHED",
    )
    ∷ (
      "worker_exit_without_result",
      expect "worker exits abruptly before writing a result envelope" "FAIL_MODEL_RUNTIME" false
          "NO_ARTIFACT_PUBLISHED",
    )
    ∷ (
      "restart_with_running_task",
      expect "persist an expired lease whose worker and owner processes are gone" "PASS" false
          "PENDING_FOR_SAFE_RETRY",
    )
    ∷ (
      "missing_cache_index",
      expect "remove the derivative index" "INDEX_REBUILT" true "MANIFEST_REDISCOVERED",
    )
    ∷ (
      "corrupt_cache_index",
      expect "truncate the SQLite index" "INDEX_REBUILT" true "MANIFEST_REDISCOVERED",
    )
    ∷ (
      "complete_state_without_valid_payload",
      expect "persist COMPLETE state without the content-addressed payload"
          "RECOMPUTE_INVALID_COMPLETE" true "TASK_REEXECUTED_AND_VALIDATED",
    )
    ∷ (
      "network_attempt_during_offline_execution",
      expect "worker attempts loopback socket connection under Python audit deny hook"
          "FAIL_MODEL_RUNTIME" false "NETWORK_DENIED_NO_ARTIFACT",
    )
    ∷ []

-- `CANONICAL_FAULT_NAMES`
unfoldable pub canonical_fault_names : List String
unfolding fault_policy
canonical_fault_names = keys fault_policy

pub record FaultInjectionRecord : Type 0 where
  pub fault_name : String
  pub injection_point : String
  pub expected_failure_category : String
  pub observed_failure_category : String
  pub expected_artifact_accepted : Bool
  pub artifact_accepted : Bool
  pub expected_resume_behavior : String
  pub lock_released : Bool
  pub resume_behavior : String
  pub evidence_sha256 : String
  pub status : String

-- `canonical_fault_evidence_payload` and its digest.
unfoldable pub fault_evidence_sha256 : Digest → FaultInjectionRecord → String
fault_evidence_sha256 h r = sha256_canonical_json h (
    object (
      ("fault_name", text r.fault_name)
      ∷ ("injection_point", text r.injection_point)
      ∷ ("expected_failure_category", text r.expected_failure_category)
      ∷ ("observed_failure_category", text r.observed_failure_category)
      ∷ ("expected_artifact_accepted", bool r.expected_artifact_accepted)
      ∷ ("artifact_accepted", bool r.artifact_accepted)
      ∷ ("expected_resume_behavior", text r.expected_resume_behavior)
      ∷ ("resume_behavior", text r.resume_behavior)
      ∷ ("lock_released", bool r.lock_released)
      ∷ []))
