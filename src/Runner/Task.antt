-- ===== src/Runner/Task.antt =====
-- runner/contracts.py: task specifications, their identity, and run plans.
use schema_guard.Base.{
  ℕ, ◌*◌, eqb, String, Bool, ◌&&◌, [], ◌∷◌, ◌==◌, ltb, leb, all, is_name_char, Result, ok, err,
  validation_error, if◌then◌else◌, length_within, codes,
}
use schema_guard.Hashing.{text, float, Digest, sha256_canonical_json, object}
use schema_guard.Cache.Identity.{
  identity_eq, CacheIdentity, is_sha256, is_real_sha256, identity_is_valid, cache_key,
}

pub data Operation : Type 0 where
  synthetic_payload sleep raise_error exit_without_result partial_exit network_attempt : Operation

unfoldable pub operation_text : Operation → String
operation_text synthetic_payload = "synthetic_payload"
operation_text sleep = "sleep"
operation_text raise_error = "raise_error"
operation_text exit_without_result = "exit_without_result"
operation_text partial_exit = "partial_exit"
operation_text network_attempt = "network_attempt"

-- The delays are finite and at least 0; both are counted in microseconds.
pub record TaskSpec : Type 0 where
  pub task_id : String
  pub task_name : String
  pub cache_identity : CacheIdentity
  pub operation : Operation
  pub payload_token : String
  pub delay_seconds : ℕ
  pub timeout_seconds : ℕ

abbrev pub second : ℕ
second = 1_000_000

unfoldable pub task_identity : Digest → TaskSpec → String
unfolding operation_text cache_key sha256_canonical_json
task_identity h t = sha256_canonical_json h (
    object (
      ("task_name", text t.task_name)
      ∷ ("cache_key", text (cache_key h t.cache_identity))
      ∷ ("operation", text (operation_text t.operation))
      ∷ ("payload_token", text t.payload_token)
      ∷ ("delay_seconds", float t.delay_seconds)
      ∷ ("timeout_seconds", float t.timeout_seconds)
      ∷ []))

-- The field constraints and `verify_task_identity`.
unfoldable pub task_is_valid : Digest → TaskSpec → Bool
unfolding is_sha256 length_within is_name_char identity_is_valid is_real_sha256 task_identity
task_is_valid h t =
    is_sha256 t.task_id
    && length_within 1 100 t.task_name
    && all is_name_char (codes t.task_name)
    && identity_is_valid t.cache_identity
    && length_within 1 128 t.payload_token
    && leb t.delay_seconds (3600 * second)
    && ltb 0 t.timeout_seconds
    && leb t.timeout_seconds (86400 * second)
    && t.task_id == task_identity h t

-- Python's `==` on two specifications compares every field.
unfoldable pub task_eq : TaskSpec → TaskSpec → Bool
unfolding identity_eq operation_text
task_eq a b =
    a.task_id == b.task_id
    && a.task_name == b.task_name
    && identity_eq a.cache_identity b.cache_identity
    && operation_text a.operation == operation_text b.operation
    && a.payload_token == b.payload_token
    && eqb a.delay_seconds b.delay_seconds
    && eqb a.timeout_seconds b.timeout_seconds

-- `build_task`: the identity is computed, and the constructor validates the rest.
unfoldable pub build_task : Digest → TaskSpec → Result TaskSpec
unfolding task_identity task_is_valid
build_task h t =
    let built = record t { task_id = task_identity h t } in
    if task_is_valid h built then ok built else err validation_error
