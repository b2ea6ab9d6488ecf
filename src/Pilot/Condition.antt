-- ===== src/Pilot/Condition.antt =====
-- The planned conditions: ConditionIdentityComponents, PlannedCondition and
-- NotApplicableConditionTuple of experiments/pilot_contracts.py.
pub mod Identity
use schema_guard.Base.{
  same_bool, ℕ, Bool, true, false, not, ◌&&◌, ltb, eqb, List, [], ◌∷◌, ◌==◌, String, Option, none,
  some, optionally, is_none,
}
use schema_guard.Base.Dict.{contains}
use schema_guard.Hashing.{Json, null, bool, int, text, Digest, sha256_canonical_json, object}
use schema_guard.Cache.Identity.{is_sha256}
use schema_guard.Pilot.Select.{model_order}

abbrev pub view_order : List String
view_order =
    "V00" ∷ "V01" ∷ "V02" ∷ "V03" ∷ "V04" ∷ "V05" ∷ "V06" ∷ "V07" ∷ "V08" ∷ "V09" ∷ "V10" ∷ []

pub data Device : Type 0 where
  cpu cuda : Device

abbrev pub same_device : Device → Device → Bool
same_device cpu cpu = true
same_device cuda cuda = true
same_device _ _ = false

abbrev pub device_text : Device → String
device_text cpu = "cpu"
device_text cuda = "cuda"

-- The fields with one allowed value are written where the payload is.
pub record ConditionIdentityComponents : Type 0 where
  pub protocol_version : String
  pub pilot_protocol_sha256 : String
  pub dataset_id : ℕ
  pub raw_source_sha256 : String
  pub processed_feature_sha256 : String
  pub target_artifact_sha256 : String
  pub seed : ℕ
  pub split_assignment_sha256 : String
  pub split_logical_sha256 : String
  pub view_id : String
  pub transformation_config_sha256 : String
  pub transformation_implementation_sha256 : String
  pub certificate_identity_sha256 : String
  pub model_id : String
  pub package_name : String
  pub package_version : String
  pub model_config_sha256 : String
  pub complete_parameters_sha256 : String
  pub preprocessing_sha256 : String
  pub checkpoint_identifier : Option String
  pub checkpoint_sha256 : Option String
  pub device_policy : Device
  pub precision_policy_sha256 : String
  pub batch_policy_sha256 : String
  pub dependency_lock_sha256 : String
  pub source_implementation_sha256 : String
  pub metric_policy_sha256 : String
  pub numerical_tolerance_policy_sha256 : String

-- The types of the fields, and the checkpoint that is there with its digest or not at all.
unfoldable pub components_are_valid : ConditionIdentityComponents → Bool
components_are_valid c =
    is_sha256 c.pilot_protocol_sha256
    && ltb 0 c.dataset_id
    && is_sha256 c.raw_source_sha256
    && is_sha256 c.processed_feature_sha256
    && is_sha256 c.target_artifact_sha256
    && is_sha256 c.split_assignment_sha256
    && is_sha256 c.split_logical_sha256
    && contains c.view_id view_order
    && is_sha256 c.transformation_config_sha256
    && is_sha256 c.transformation_implementation_sha256
    && is_sha256 c.certificate_identity_sha256
    && contains c.model_id model_order
    && is_sha256 c.model_config_sha256
    && is_sha256 c.complete_parameters_sha256
    && is_sha256 c.preprocessing_sha256
    && optionally is_sha256 c.checkpoint_sha256
    && is_sha256 c.precision_policy_sha256
    && is_sha256 c.batch_policy_sha256
    && is_sha256 c.dependency_lock_sha256
    && is_sha256 c.source_implementation_sha256
    && is_sha256 c.metric_policy_sha256
    && is_sha256 c.numerical_tolerance_policy_sha256
    && same_bool (is_none c.checkpoint_identifier) (is_none c.checkpoint_sha256)

abbrev pub optional_text : Option String → Json
optional_text none = null
optional_text (some s) = text s

-- `model_dump(mode="json")`
unfoldable pub components_json : ConditionIdentityComponents → Json
components_json c = object (
    ("schema_version", int 1)
    ∷ ("artifact_kind", text "pilot_prediction")
    ∷ ("protocol_version", text c.protocol_version)
    ∷ ("pilot_protocol_sha256", text c.pilot_protocol_sha256)
    ∷ ("dataset_id", int c.dataset_id)
    ∷ ("raw_source_sha256", text c.raw_source_sha256)
    ∷ ("processed_feature_sha256", text c.processed_feature_sha256)
    ∷ ("target_artifact_sha256", text c.target_artifact_sha256)
    ∷ ("split_strategy", text "stratified_group_5fold_v1")
    ∷ ("seed", int c.seed)
    ∷ ("split_assignment_sha256", text c.split_assignment_sha256)
    ∷ ("split_logical_sha256", text c.split_logical_sha256)
    ∷ ("view_id", text c.view_id)
    ∷ ("transformation_config_sha256", text c.transformation_config_sha256)
    ∷ ("transformation_implementation_sha256", text c.transformation_implementation_sha256)
    ∷ ("certificate_identity_sha256", text c.certificate_identity_sha256)
    ∷ ("model_id", text c.model_id)
    ∷ ("package_name", text c.package_name)
    ∷ ("package_version", text c.package_version)
    ∷ ("model_config_sha256", text c.model_config_sha256)
    ∷ ("complete_parameters_sha256", text c.complete_parameters_sha256)
    ∷ ("preprocessing_sha256", text c.preprocessing_sha256)
    ∷ ("checkpoint_identifier", optional_text c.checkpoint_identifier)
    ∷ ("checkpoint_sha256", optional_text c.checkpoint_sha256)
    ∷ ("device_policy", text (device_text c.device_policy))
    ∷ ("precision_policy_sha256", text c.precision_policy_sha256)
    ∷ ("batch_policy_sha256", text c.batch_policy_sha256)
    ∷ ("dependency_lock_sha256", text c.dependency_lock_sha256)
    ∷ ("source_implementation_sha256", text c.source_implementation_sha256)
    ∷ ("metric_policy_sha256", text c.metric_policy_sha256)
    ∷ ("numerical_tolerance_policy_sha256", text c.numerical_tolerance_policy_sha256)
    ∷ ("offline_policy", bool true)
    ∷ ("schema_version_identity", int 1)
    ∷ [])

unfoldable pub canonical_identity_hash : Digest → ConditionIdentityComponents → String
canonical_identity_hash h c = sha256_canonical_json h (components_json c)

pub record PlannedCondition : Type 0 where
  pub condition_id : String
  pub identity : ConditionIdentityComponents
  pub dataset_id : ℕ
  pub seed : ℕ
  pub view_id : String
  pub model_id : String
  pub device : Device

-- The fields of the identity, and the agreement of the condition with it.
unfoldable pub condition_is_valid : Digest → PlannedCondition → Bool
condition_is_valid h c =
    is_sha256 c.condition_id
    && components_are_valid c.identity
    && ltb 0 c.dataset_id
    && contains c.view_id view_order
    && contains c.model_id model_order
    && eqb c.identity.dataset_id c.dataset_id
    && eqb c.identity.seed c.seed
    && c.identity.view_id == c.view_id
    && c.identity.model_id == c.model_id
    && same_device c.identity.device_policy c.device
    && c.condition_id == canonical_identity_hash h c.identity

pub record NotApplicableConditionTuple : Type 0 where
  pub dataset_id : ℕ
  pub seed : ℕ
  pub view_id : String
  pub reason_code : String
  pub evidence_sha256 : String
  pub transformation_inventory_record_sha256 : String

abbrev pub not_applicable_is_valid : NotApplicableConditionTuple → Bool
not_applicable_is_valid t =
    ltb 0 t.dataset_id
    && contains t.view_id view_order
    && not (t.reason_code == "")
    && is_sha256 t.evidence_sha256
    && is_sha256 t.transformation_inventory_record_sha256

unfoldable pub condition_json : PlannedCondition → Json
condition_json c = object (
    ("condition_id", text c.condition_id)
    ∷ ("identity", components_json c.identity)
    ∷ ("dataset_id", int c.dataset_id)
    ∷ ("seed", int c.seed)
    ∷ ("view_id", text c.view_id)
    ∷ ("model_id", text c.model_id)
    ∷ ("device", text (device_text c.device))
    ∷ ("applicability", text "APPLICABLE")
    ∷ [])

unfoldable pub not_applicable_json : NotApplicableConditionTuple → Json
not_applicable_json t = object (
    ("dataset_id", int t.dataset_id)
    ∷ ("seed", int t.seed)
    ∷ ("view_id", text t.view_id)
    ∷ ("reason_code", text t.reason_code)
    ∷ ("evidence_sha256", text t.evidence_sha256)
    ∷ ("transformation_inventory_record_sha256", text t.transformation_inventory_record_sha256)
    ∷ [])
