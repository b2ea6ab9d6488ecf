-- ===== src/Cache/Files.antt =====
-- What cache/store.py takes from Python's library: SHA-256 of a file, its size, and the text of
-- a manifest and of a marker (`atomic_write_json` of `model_dump`, `json.loads` with the types of
-- the fields). The content of a file is any type.
use schema_guard.Base.{ℕ, String, true, ◌≡◌, Option, some}
use schema_guard.Cache.Identity.{is_sha256}
use schema_guard.Cache.Manifest.{CacheArtifactManifest, CompletionMarker}

pub record Files (B : Type 0) : Type 0 where
  pub sha256_file : B → String
  pub file_size : B → ℕ
  pub manifest_text : CacheArtifactManifest → B
  pub parse_manifest : B → Option CacheArtifactManifest
  pub marker_text : CompletionMarker → B
  pub parse_marker : B → Option CompletionMarker

-- A digest is 64 lowercase hexadecimal digits, and written JSON is read back.
pub record IsLawful {B : Type 0} (files : Files B) : Type 0 where
  pub digest_is_sha256 : (b : B) → is_sha256 (files.sha256_file b) ≡ true
  pub manifest_round_trip :
      (m : CacheArtifactManifest) → files.parse_manifest (files.manifest_text m) ≡ some m
  pub marker_round_trip : (k : CompletionMarker) → files.parse_marker (files.marker_text k) ≡ some k
