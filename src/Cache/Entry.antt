-- ===== src/Cache/Entry.antt =====
-- cache/store.py: one entry directory, its validation, and the transaction that builds it.
pub mod Checks
pub mod Build
use Prim.Native.String.{◌++◌ as ◌+text◌}
use schema_guard.Base.{
  ℕ, String, Bool, true, false, not, ◌&&◌, ◌||◌, Option, none, some, List, [], ◌∷◌, ◌==◌, eqb, all,
  if◌then◌else◌, first_chars, Result, ok, err, ◌>>=◌, ◌>>◌, cache_integrity, validation_error,
}
use schema_guard.Base.Dict.{Dict, lookup, contains, keys}
use schema_guard.Hashing.{Digest}
use schema_guard.Cache.Identity.{
  CacheIdentity, ArtifactKind, artifact_kind_text, cache_key, identity_eq, is_sha256,
}
use schema_guard.Cache.Manifest.{
  Timestamp, utc_now, CacheArtifactManifest, manifest_is_valid, CompletionMarker, marker_is_valid,
}
use schema_guard.Cache.Files.{Files}

-- What a name in a directory is.
pub data Node (B : Type 0) : Type 0 where
  file : (content : B) → Node B
  folder : Node B

abbrev pub Directory : Type 0 → Type 0
Directory B = Dict (Node B)

-- `created_at` is the timestamp that the source prints.
pub record CacheArtifact : Type 0 where
  pub cache_key : String
  pub artifact_kind : ArtifactKind
  pub payload_path : String
  pub manifest_path : String
  pub payload_sha256 : String
  pub payload_size_bytes : ℕ
  pub producing_task_identity : String
  pub created_at : Timestamp
  pub source_implementation_sha256 : String
  pub dependency_lock_sha256 : String

abbrev pub payload_name : String
payload_name = "payload.bin"

abbrev pub manifest_name : String
manifest_name = "manifest.json"

abbrev pub marker_name : String
marker_name = ".complete.json"

-- The path of an entry, from the root of the cache.
unfoldable pub entry_path : String → String
entry_path key = (first_chars 2 key +text "/") +text key

-- `raise CacheIntegrityError` unless a test passes.
abbrev pub require : Bool → Result (Unit {0})
require true = ok tt
require false = err cache_integrity

-- The constructor of a contract raises unless its validation passes.
abbrev pub validated : Bool → Result (Unit {0})
validated true = ok tt
validated false = err validation_error

abbrev is_expected_name : String → Bool
is_expected_name name = name == payload_name || name == manifest_name || name == marker_name

module _ {B : Type 0} where
  abbrev is_file : Node B → Bool
  is_file (file b) = true
  is_file folder = false

  -- `read_text` and the like: a missing file and a folder raise.
  unfoldable pub open_file : String → Directory B → Option B
  unfolding lookup
  open_file name d = elim (lookup name d) [
    | none ↦ none
    | some (file b) ↦ some b
    | some folder ↦ none
  ]

  -- The directory holds the three files and nothing else.
  unfoldable pub is_entry_layout : Directory B → Bool
  unfolding contains
  is_entry_layout d =
      all (λ e. is_file e.1 && is_expected_name e.0) d
      && contains payload_name (keys d)
      && contains manifest_name (keys d)
      && contains marker_name (keys d)

-- A value that is missing raises CacheIntegrityError.
abbrev pub found {ℓ} : {A : Type ℓ} → Option A → Result A
found none = err cache_integrity
found (some a) = ok a

module _ {B : Type 0} (files : Files B) (h : Digest) where
  -- The comparisons of `_validate_directory`, in its order.
  unfoldable pub entry_matches :
      String
      → String
      → CacheIdentity
      → Bool
      → B
      → B
      → CacheArtifactManifest
      → CompletionMarker
      → Bool
  entry_matches name key identity allow_transaction payload manifest_file manifest marker =
      (allow_transaction || name == key)
      && manifest.cache_key == key
      && identity_eq manifest.identity identity
      && cache_key h identity == key
      && manifest.validation_status == "PASS"
      && manifest.completed
      && eqb (files.file_size payload) manifest.payload_size_bytes
      && files.sha256_file payload == manifest.payload_sha256
      && marker.manifest_sha256 == files.sha256_file manifest_file
      && marker.payload_sha256 == files.sha256_file payload

  unfoldable pub artifact_of : String → String → CacheArtifactManifest → B → CacheArtifact
  artifact_of path key manifest payload = record {
    cache_key = key;
    artifact_kind = manifest.artifact_kind;
    payload_path = path +text "/payload.bin";
    manifest_path = path +text "/manifest.json";
    payload_sha256 = files.sha256_file payload;
    payload_size_bytes = files.file_size payload;
    producing_task_identity = manifest.producing_task_identity;
    created_at = manifest.created_at;
    source_implementation_sha256 = manifest.source_implementation_sha256;
    dependency_lock_sha256 = manifest.dependency_lock_sha256;
  }

  -- `_validate_directory` on the directory `name` at `path`. Every failure is a
  -- CacheIntegrityError.
  unfoldable pub validate_directory :
      String → String → Directory B → String → CacheIdentity → Bool → Result CacheArtifact
  validate_directory path name d key identity allow_transaction = do
    require (is_entry_layout d)
    manifest_file ← found (open_file manifest_name d)
    marker_file ← found (open_file marker_name d)
    manifest ← found (files.parse_manifest manifest_file)
    require (manifest_is_valid h manifest)
    marker ← found (files.parse_marker marker_file)
    require (marker_is_valid marker)
    payload ← found (open_file payload_name d)
    require
        (entry_matches name key identity allow_transaction payload manifest_file manifest marker)
    ok (artifact_of path key manifest payload)

  unfoldable pub new_manifest : ℕ → CacheIdentity → String → B → CacheArtifactManifest
  new_manifest now identity task_identity payload = record {
    schema_version = 1;
    identity = identity;
    cache_key = cache_key h identity;
    artifact_kind = identity.artifact_kind;
    payload_file = payload_name;
    payload_sha256 = files.sha256_file payload;
    payload_size_bytes = files.file_size payload;
    producing_task_identity = task_identity;
    created_at = utc_now now;
    source_implementation_sha256 = identity.source_implementation_sha256;
    dependency_lock_sha256 = identity.dependency_lock_sha256;
    validation_status = "PASS";
    completed = true;
  }

  unfoldable pub new_marker : CacheArtifactManifest → B → CompletionMarker
  new_marker manifest payload = record {
    schema_version = 1;
    manifest_sha256 = files.sha256_file (files.manifest_text manifest);
    payload_sha256 = files.sha256_file payload;
  }

  -- The files of a transaction, in the order in which they are written.
  unfoldable pub transaction_files : CacheArtifactManifest → B → Directory B
  transaction_files manifest payload =
      (payload_name, file payload)
      ∷ (manifest_name, file (files.manifest_text manifest))
      ∷ (marker_name, file (files.marker_text (new_marker manifest payload)))
      ∷ []

  -- The transaction of `_publish_stream` up to its validation, in the directory `name` at `path`.
  unfoldable pub build_transaction :
      ℕ → String → String → CacheIdentity → String → B → String → ℕ → Result (Directory B)
  build_transaction now path name identity task_identity payload expected_hash expected_size = do
    require
        (eqb (files.file_size payload) expected_size && files.sha256_file payload == expected_hash)
    let manifest = new_manifest now identity task_identity payload
    validated (manifest_is_valid h manifest)
    validated (marker_is_valid (new_marker manifest payload))
    let d = transaction_files manifest payload
    validate_directory path name d (cache_key h identity) identity true
    ok d
