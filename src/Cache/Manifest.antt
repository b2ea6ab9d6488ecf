-- ===== src/Cache/Manifest.antt =====
-- cache/contracts.py: the manifest of a cached artifact and the marker of a complete entry.
use schema_guard.Base.{ℕ, ℤ, pos, negsuc, String, Bool, false, ◌&&◌, Option, none, some, ◌==◌, eqb}
use schema_guard.Hashing.{Digest}
use schema_guard.Cache.Identity.{
  CacheIdentity, ArtifactKind, artifact_kind_text, is_sha256, identity_is_valid, cache_key,
}

-- A `datetime` as a manifest holds it: the instant in microseconds and `utcoffset()`, absent
-- without a time zone.
pub record Timestamp : Type 0 where
  pub instant : ℕ
  pub utc_offset : Option ℤ

abbrev pub utc_now : ℕ → Timestamp
utc_now n = record { instant = n; utc_offset = some (pos 0) }

unfoldable pub is_utc : Timestamp → Bool
is_utc t = elim t.utc_offset [ none ↦ false | some (pos n) ↦ eqb n 0 | some (negsuc n) ↦ false ]

-- The fields of a manifest, before validation.
pub record CacheArtifactManifest : Type 0 where
  pub schema_version : ℕ
  pub identity : CacheIdentity
  pub cache_key : String
  pub artifact_kind : ArtifactKind
  pub payload_file : String
  pub payload_sha256 : String
  pub payload_size_bytes : ℕ
  pub producing_task_identity : String
  pub created_at : Timestamp
  pub source_implementation_sha256 : String
  pub dependency_lock_sha256 : String
  pub validation_status : String
  pub completed : Bool

-- The field types and `identity_matches_manifest`.
unfoldable pub manifest_is_valid : Digest → CacheArtifactManifest → Bool
manifest_is_valid h m =
    eqb m.schema_version 1
    && identity_is_valid m.identity
    && is_sha256 m.cache_key
    && m.payload_file == "payload.bin"
    && is_sha256 m.payload_sha256
    && is_sha256 m.producing_task_identity
    && is_sha256 m.source_implementation_sha256
    && is_sha256 m.dependency_lock_sha256
    && m.validation_status == "PASS"
    && m.completed
    && is_utc m.created_at
    && m.cache_key == cache_key h m.identity
    && artifact_kind_text m.artifact_kind == artifact_kind_text m.identity.artifact_kind
    && m.source_implementation_sha256 == m.identity.source_implementation_sha256
    && m.dependency_lock_sha256 == m.identity.dependency_lock_sha256

pub record CompletionMarker : Type 0 where
  pub schema_version : ℕ
  pub manifest_sha256 : String
  pub payload_sha256 : String

unfoldable pub marker_is_valid : CompletionMarker → Bool
marker_is_valid k =
    eqb k.schema_version 1 && is_sha256 k.manifest_sha256 && is_sha256 k.payload_sha256
