-- ===== src/Cache/Identity.antt =====
-- cache/contracts.py: the identity of a cached artifact, its key and its validation.
use schema_guard.Base.{
  ◌≡◌, refl, ap, true, false, eq_iff, eq_refl, arith, ℕ, String, Bool, not, ◌&&◌, Option, none,
  some, [], ◌∷◌, ◌==◌, eqb, optionally, is_hex_text,
}
use schema_guard.Hashing.{Json, null, int, text, Digest, sha256_canonical_json, object}

pub data DevicePolicy : Type 0 where
  cpu cuda : DevicePolicy

pub data ArtifactKind : Type 0 where
  model prediction metric condition probe : ArtifactKind

unfoldable pub device_policy_text : DevicePolicy → String
device_policy_text cpu = "cpu"
device_policy_text cuda = "cuda"

unfoldable pub artifact_kind_text : ArtifactKind → String
artifact_kind_text model = "model"
artifact_kind_text prediction = "prediction"
artifact_kind_text metric = "metric"
artifact_kind_text condition = "condition"
artifact_kind_text probe = "probe"

-- `seed` is an integer that is at least 0, so a native number.
pub record CacheIdentity : Type 0 where
  pub schema_version : ℕ
  pub dataset_sha256 : String
  pub split_sha256 : String
  pub view_certificate_sha256 : String
  pub model_spec_sha256 : String
  pub model_parameters_sha256 : String
  pub checkpoint_sha256 : Option String
  pub dependency_lock_sha256 : String
  pub source_implementation_sha256 : String
  pub seed : ℕ
  pub device_policy : DevicePolicy
  pub artifact_kind : ArtifactKind

-- `^[0-9a-f]{64}$`
unfoldable pub is_sha256 : String → Bool
unfolding is_hex_text
is_sha256 = is_hex_text 64

-- `"0" * 64`
abbrev pub placeholder : String
placeholder = "0000000000000000000000000000000000000000000000000000000000000000"

-- The type of a digest field, and the test of `reject_placeholder_hashes` on it.
unfoldable pub is_real_sha256 : String → Bool
is_real_sha256 s = is_sha256 s && not (s == placeholder)

unfoldable pub identity_is_valid : CacheIdentity → Bool
identity_is_valid c =
    eqb c.schema_version 1
    && is_real_sha256 c.dataset_sha256
    && is_real_sha256 c.split_sha256
    && is_real_sha256 c.view_certificate_sha256
    && is_real_sha256 c.model_spec_sha256
    && is_real_sha256 c.model_parameters_sha256
    && optionally is_real_sha256 c.checkpoint_sha256
    && is_real_sha256 c.dependency_lock_sha256
    && is_real_sha256 c.source_implementation_sha256

optional_text : Option String → Json
optional_text none = null
optional_text (some s) = text s

-- `model_dump(mode="json")`
unfoldable pub identity_json : CacheIdentity → Json
unfolding device_policy_text artifact_kind_text optional_text
identity_json c = object (
    ("schema_version", int c.schema_version)
    ∷ ("dataset_sha256", text c.dataset_sha256)
    ∷ ("split_sha256", text c.split_sha256)
    ∷ ("view_certificate_sha256", text c.view_certificate_sha256)
    ∷ ("model_spec_sha256", text c.model_spec_sha256)
    ∷ ("model_parameters_sha256", text c.model_parameters_sha256)
    ∷ ("checkpoint_sha256", optional_text c.checkpoint_sha256)
    ∷ ("dependency_lock_sha256", text c.dependency_lock_sha256)
    ∷ ("source_implementation_sha256", text c.source_implementation_sha256)
    ∷ ("seed", int c.seed)
    ∷ ("device_policy", text (device_policy_text c.device_policy))
    ∷ ("artifact_kind", text (artifact_kind_text c.artifact_kind))
    ∷ [])

unfoldable pub cache_key : Digest → CacheIdentity → String
unfolding identity_json sha256_canonical_json
cache_key h c = sha256_canonical_json h (identity_json c)

-- Python's `==` on two identities compares every field.
unfoldable pub optional_text_eq : Option String → Option String → Bool
optional_text_eq none none = true
optional_text_eq (some s) (some t) = s == t
optional_text_eq _ _ = false

unfoldable pub identity_eq : CacheIdentity → CacheIdentity → Bool
unfolding optional_text_eq device_policy_text artifact_kind_text
identity_eq a b =
    eqb a.schema_version b.schema_version
    && a.dataset_sha256 == b.dataset_sha256
    && a.split_sha256 == b.split_sha256
    && a.view_certificate_sha256 == b.view_certificate_sha256
    && a.model_spec_sha256 == b.model_spec_sha256
    && a.model_parameters_sha256 == b.model_parameters_sha256
    && optional_text_eq a.checkpoint_sha256 b.checkpoint_sha256
    && a.dependency_lock_sha256 == b.dependency_lock_sha256
    && a.source_implementation_sha256 == b.source_implementation_sha256
    && eqb a.seed b.seed
    && device_policy_text a.device_policy == device_policy_text b.device_policy
    && artifact_kind_text a.artifact_kind == artifact_kind_text b.artifact_kind

device_policy-injective :
    (p q : DevicePolicy) → device_policy_text p == device_policy_text q ≡ true → p ≡ q
unfolding device_policy_text
device_policy-injective cpu cpu h = refl
device_policy-injective cpu cuda h = cc
device_policy-injective cuda cpu h = cc
device_policy-injective cuda cuda h = refl

pub artifact_kind-injective :
    (p q : ArtifactKind) → artifact_kind_text p == artifact_kind_text q ≡ true → p ≡ q
unfolding artifact_kind_text
artifact_kind-injective model model h = refl
artifact_kind-injective model prediction h = cc
artifact_kind-injective model metric h = cc
artifact_kind-injective model condition h = cc
artifact_kind-injective model probe h = cc
artifact_kind-injective prediction model h = cc
artifact_kind-injective prediction prediction h = refl
artifact_kind-injective prediction metric h = cc
artifact_kind-injective prediction condition h = cc
artifact_kind-injective prediction probe h = cc
artifact_kind-injective metric model h = cc
artifact_kind-injective metric prediction h = cc
artifact_kind-injective metric metric h = refl
artifact_kind-injective metric condition h = cc
artifact_kind-injective metric probe h = cc
artifact_kind-injective condition model h = cc
artifact_kind-injective condition prediction h = cc
artifact_kind-injective condition metric h = cc
artifact_kind-injective condition condition h = refl
artifact_kind-injective condition probe h = cc
artifact_kind-injective probe model h = cc
artifact_kind-injective probe prediction h = cc
artifact_kind-injective probe metric h = cc
artifact_kind-injective probe condition h = cc
artifact_kind-injective probe probe h = refl

optional_text_eq-eq : (s t : Option String) → optional_text_eq s t ≡ true → s ≡ t
unfolding optional_text_eq
optional_text_eq-eq none none h = refl
optional_text_eq-eq none (some t) h = cc
optional_text_eq-eq (some s) none h = cc
optional_text_eq-eq (some s) (some t) h = ap some ((eq_iff s t).0 h)

optional_text_eq_refl : (s : Option String) → optional_text_eq s s ≡ true
unfolding optional_text_eq
optional_text_eq_refl none = refl
optional_text_eq_refl (some s) = eq_refl s

-- Identities that compare equal are the same.
pub identity_eq-eq : (a b : CacheIdentity) → identity_eq a b ≡ true → a ≡ b
unfolding identity_eq
identity_eq-eq a b h = ground (
  arith,
  eq_iff a.dataset_sha256 b.dataset_sha256,
  eq_iff a.split_sha256 b.split_sha256,
  eq_iff a.view_certificate_sha256 b.view_certificate_sha256,
  eq_iff a.model_spec_sha256 b.model_spec_sha256,
  eq_iff a.model_parameters_sha256 b.model_parameters_sha256,
  eq_iff a.dependency_lock_sha256 b.dependency_lock_sha256,
  eq_iff a.source_implementation_sha256 b.source_implementation_sha256,
  optional_text_eq-eq a.checkpoint_sha256 b.checkpoint_sha256,
  device_policy-injective a.device_policy b.device_policy,
  artifact_kind-injective a.artifact_kind b.artifact_kind,
)

pub identity_eq_refl : (a : CacheIdentity) → identity_eq a a ≡ true
unfolding identity_eq
identity_eq_refl a = ground (
  arith,
  eq_refl a.dataset_sha256,
  eq_refl a.split_sha256,
  eq_refl a.view_certificate_sha256,
  eq_refl a.model_spec_sha256,
  eq_refl a.model_parameters_sha256,
  eq_refl a.dependency_lock_sha256,
  eq_refl a.source_implementation_sha256,
  optional_text_eq_refl a.checkpoint_sha256,
  eq_refl (device_policy_text a.device_policy),
  eq_refl (artifact_kind_text a.artifact_kind),
)
