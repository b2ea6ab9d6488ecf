-- ===== src/Cache/Faults.antt =====
-- cache/contracts.py: the validation of the fault-injection evidence.
pub mod Accepted
use schema_guard.Base.{
  same_names, same_bool, ℕ, String, Bool, true, false, not, ◌&&◌, ◌||◌, Option, none, some, List,
  [], ◌∷◌, map, ◌==◌, eqb, all, if◌then◌else◌, is_hex_text, Result, ok, err, ◌>>◌, value_error,
}
use schema_guard.Base.Dict.{lookup}
use schema_guard.Hashing.{Digest}
use schema_guard.Cache.Identity.{is_sha256}
use schema_guard.Cache.FaultPolicy.{
  FaultExpectation, fault_policy, canonical_fault_names, FaultInjectionRecord,
  fault_evidence_sha256,
}

-- `is` on two Booleans.
-- What was observed is what was expected, and the lock was released.
unfoldable pub as_expected : FaultInjectionRecord → Bool
as_expected r =
    r.observed_failure_category == r.expected_failure_category
    && same_bool r.artifact_accepted r.expected_artifact_accepted
    && r.resume_behavior == r.expected_resume_behavior
    && r.lock_released

abbrev pub derived_status : FaultInjectionRecord → String
derived_status r = if as_expected r then "PASS" else "FAIL"

unfoldable pub matches_expectation : FaultInjectionRecord → FaultExpectation → Bool
matches_expectation r x =
    r.injection_point == x.injection_point
    && r.expected_failure_category == x.expected_failure_category
    && same_bool r.expected_artifact_accepted x.expected_artifact_accepted
    && r.expected_resume_behavior == x.expected_resume_behavior

-- `validate_policy_hash_and_status`, behind the types of the fields.
unfoldable pub fault_record_is_valid : Digest → FaultInjectionRecord → Bool
fault_record_is_valid h r = elim (lookup r.fault_name fault_policy) [
  | none ↦ false
  | some x ↦
      is_sha256 r.evidence_sha256
      && matches_expectation r x
      && r.evidence_sha256 == fault_evidence_sha256 h r
      && r.status == derived_status r
]

pub record FaultInjectionEvidence : Type 0 where
  pub schema_version : ℕ
  pub stage : String
  pub source_implementation_commit : String
  pub records : List FaultInjectionRecord
  pub expected_fault_count : ℕ
  pub offline_network_attempt_count : ℕ

-- `==` on two lists of texts.
-- The types of the fields and `complete_fault_matrix`.
unfoldable pub fault_evidence_is_valid : Digest → FaultInjectionEvidence → Bool
fault_evidence_is_valid h e =
    eqb e.schema_version 1
    && e.stage == "cache_scheduler_faults"
    && is_hex_text 40 e.source_implementation_commit
    && eqb e.expected_fault_count 30
    && all (fault_record_is_valid h) e.records
    && same_names (map (λ r. r.fault_name) e.records) canonical_fault_names
    && all (λ r. r.status == "PASS") e.records
    && eqb e.offline_network_attempt_count 1

-- `validate_fault_evidence_binding`
unfoldable pub validate_fault_evidence_binding :
    FaultInjectionEvidence → String → String → String → Result (Unit {0})
validate_fault_evidence_binding e commit inventory_sha256 observed_sha256 =
    if not (e.source_implementation_commit == commit)
    then err value_error
    else if not (inventory_sha256 == observed_sha256)
    then err value_error
    else ok tt
