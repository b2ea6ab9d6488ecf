-- ===== src/Pilot/Condition/Identity.antt =====
-- What the identifier of a planned condition stands for: `validate_identity` and
-- `canonical_identity_hash` of experiments/pilot_contracts.py.
use schema_guard.Base.{
  Option, none, some, ℕ, ◌≡◌, refl, ap, sym, ◌∙◌, arith, true, String, ◌==◌, eq_iff, if◌then◌else◌,
}
use schema_guard.Hashing.{Json, Fields, end, field, obj, text, int, Digest, canonicalize, text_le}
use schema_guard.Pilot.Condition.{
  Device, cpu, cuda, device_text, same_device, optional_text, ConditionIdentityComponents,
  PlannedCondition, components_json, canonical_identity_hash, condition_is_valid,
}

text_of : Json → String
text_of (text s) = s
text_of _ = ""

number_of : Json → ℕ
number_of (int n) = n
number_of _ = 0

field_at : String → Fields → Json
field_at k end = Json.null
field_at k (field j v rest) = if j == k then v else field_at k rest

value_at : String → Json → Json
value_at k (obj fs) = field_at k fs
value_at k _ = Json.null

optional_of : Json → Option String
optional_of (text s) = some s
optional_of _ = none

device_of : String → Device
device_of s = if s == "cpu" then cpu else cuda

-- The components that a payload holds.
components_of : Json → ConditionIdentityComponents
components_of v = record {
  protocol_version = text_of (value_at "protocol_version" v);
  pilot_protocol_sha256 = text_of (value_at "pilot_protocol_sha256" v);
  dataset_id = number_of (value_at "dataset_id" v);
  raw_source_sha256 = text_of (value_at "raw_source_sha256" v);
  processed_feature_sha256 = text_of (value_at "processed_feature_sha256" v);
  target_artifact_sha256 = text_of (value_at "target_artifact_sha256" v);
  seed = number_of (value_at "seed" v);
  split_assignment_sha256 = text_of (value_at "split_assignment_sha256" v);
  split_logical_sha256 = text_of (value_at "split_logical_sha256" v);
  view_id = text_of (value_at "view_id" v);
  transformation_config_sha256 = text_of (value_at "transformation_config_sha256" v);
  transformation_implementation_sha256 =
      text_of (value_at "transformation_implementation_sha256" v);
  certificate_identity_sha256 = text_of (value_at "certificate_identity_sha256" v);
  model_id = text_of (value_at "model_id" v);
  package_name = text_of (value_at "package_name" v);
  package_version = text_of (value_at "package_version" v);
  model_config_sha256 = text_of (value_at "model_config_sha256" v);
  complete_parameters_sha256 = text_of (value_at "complete_parameters_sha256" v);
  preprocessing_sha256 = text_of (value_at "preprocessing_sha256" v);
  checkpoint_identifier = optional_of (value_at "checkpoint_identifier" v);
  checkpoint_sha256 = optional_of (value_at "checkpoint_sha256" v);
  device_policy = device_of (text_of (value_at "device_policy" v));
  precision_policy_sha256 = text_of (value_at "precision_policy_sha256" v);
  batch_policy_sha256 = text_of (value_at "batch_policy_sha256" v);
  dependency_lock_sha256 = text_of (value_at "dependency_lock_sha256" v);
  source_implementation_sha256 = text_of (value_at "source_implementation_sha256" v);
  metric_policy_sha256 = text_of (value_at "metric_policy_sha256" v);
  numerical_tolerance_policy_sha256 = text_of (value_at "numerical_tolerance_policy_sha256" v);
}

optional_of_lem : (o : Option String) → optional_of (canonicalize (optional_text o)) ≡ o
unfolding optional_of canonicalize
optional_of_lem none = refl
optional_of_lem (some s) = refl

device_of_lem : (d : Device) → device_of (device_text d) ≡ d
unfolding device_of
device_of_lem cpu = refl
device_of_lem cuda = refl

restored :
    (c : ConditionIdentityComponents) {i s : Option String} {e : Device}
    → i ≡ c.checkpoint_identifier
    → s ≡ c.checkpoint_sha256
    → e ≡ c.device_policy
    → record c { checkpoint_identifier = i; checkpoint_sha256 = s; device_policy = e } ≡ c
restored c p q r = rw (p, q, r) refl

components_of_lem :
    (c : ConditionIdentityComponents) → components_of (canonicalize (components_json c)) ≡ c
unfolding components_of canonicalize components_json text_le value_at field_at text_of number_of
    optional_of device_of
components_of_lem c =
    restored c (optional_of_lem c.checkpoint_identifier) (optional_of_lem c.checkpoint_sha256)
      (device_of_lem c.device_policy)

same_device-eq : (a b : Device) → same_device a b ≡ true → a ≡ b
same_device-eq cpu cpu h = refl
same_device-eq cuda cuda h = refl
same_device-eq cpu cuda h = cc
same_device-eq cuda cpu h = cc

-- What `validate_identity` compares.
agreeing :
    (h : Digest) (c : PlannedCondition)
    → condition_is_valid h c ≡ true
    → (c.identity.dataset_id ≡ c.dataset_id)
      × (c.identity.seed ≡ c.seed)
      × (c.identity.view_id ≡ c.view_id)
      × (c.identity.model_id ≡ c.model_id)
      × (c.identity.device_policy ≡ c.device)
      × (c.condition_id ≡ canonical_identity_hash h c.identity)
unfolding condition_is_valid
agreeing h c valid = (
  ground (arith, valid),
  ground (arith, valid),
  ground (arith, valid, eq_iff c.identity.view_id c.view_id),
  ground (arith, valid, eq_iff c.identity.model_id c.model_id),
  same_device-eq c.identity.device_policy c.device (ground (arith, valid)),
  ground (arith, valid, eq_iff c.condition_id (canonical_identity_hash h c.identity)),
)

-- The fields of a condition, from its identifier and its identity.
abbrev condition_from : String → ConditionIdentityComponents → PlannedCondition
condition_from id c = record {
  condition_id = id;
  identity = c;
  dataset_id = c.dataset_id;
  seed = c.seed;
  view_id = c.view_id;
  model_id = c.model_id;
  device = c.device_policy;
}

condition_from-identity :
    (h : Digest) (c : PlannedCondition)
    → condition_is_valid h c ≡ true
    → condition_from c.condition_id c.identity ≡ c
condition_from-identity h c valid =
    let (dataset, seed, view, model, device, id) = agreeing h c valid in
    rw (dataset, seed, view, model, device) refl

-- If the digest does not send the two different payloads to one text, two conditions that pass the
-- validators and have the same identifier are equal in every field.
pub condition_id_determines :
    (h : Digest) (c d : PlannedCondition)
    → condition_is_valid h c ≡ true
    → condition_is_valid h d ≡ true
    → (canonical_identity_hash h c.identity ≡ canonical_identity_hash h d.identity
        → canonicalize (components_json c.identity) ≡ canonicalize (components_json d.identity))
    → c.condition_id ≡ d.condition_id
    → c ≡ d
condition_id_determines h c d valid_c valid_d no_collision same =
    let (_, _, _, _, _, of_c) = agreeing h c valid_c in
    let (_, _, _, _, _, of_d) = agreeing h d valid_d in
    let payloads = no_collision (sym of_c ∙ same ∙ of_d) in
    let identities : c.identity ≡ d.identity =
      sym (components_of_lem c.identity)
      ∙ ap components_of payloads
      ∙ components_of_lem d.identity in
    sym (condition_from-identity h c valid_c)
    ∙ ap (λ i. condition_from i c.identity) same
    ∙ ap (condition_from d.condition_id) identities
    ∙ condition_from-identity h d valid_d
