-- ===== src/Cache/Entry/Build.antt =====
-- cache/store.py: the directory that a transaction builds is a valid entry.
use schema_guard.Base.{◌≡◌, refl, ℕ, String, Bool, true, ◌||◌, ok, ◌==◌, eqb_refl, eq_refl, arith}
use schema_guard.Base.Dict.{lookup, contains}
use schema_guard.Hashing.{Json, Digest, sha256_canonical_json}
use schema_guard.Cache.Identity.{
  CacheIdentity, artifact_kind_text, is_sha256, is_real_sha256, identity_is_valid, cache_key,
  identity_eq_refl,
}
use schema_guard.Cache.Manifest.{CacheArtifactManifest, is_utc, manifest_is_valid, marker_is_valid}
use schema_guard.Cache.Entry.Checks.{ok_of_Checks}
use schema_guard.Cache.Files.{Files, IsLawful}
use schema_guard.Cache.Entry.{
  is_entry_layout, open_file, entry_matches, artifact_of, validate_directory, new_manifest,
  new_marker, transaction_files, build_transaction,
}

module _ {B : Type 0} (files : Files B) (lawful : IsLawful files) (h : Digest)
    (hex : (v : Json) → is_sha256 (h v) ≡ true) (now : ℕ) (identity : CacheIdentity)
    (task_identity : String) (payload : B) (valid : identity_is_valid identity ≡ true)
    (named : is_sha256 task_identity ≡ true) where
  pub cache_key_lem : is_sha256 (cache_key h identity) ≡ true
  unfolding cache_key sha256_canonical_json
  cache_key_lem = hex _

  sources_are_sha256 :
      (is_sha256 identity.dependency_lock_sha256 ≡ true)
      × (is_sha256 identity.source_implementation_sha256 ≡ true)
  unfolding identity_is_valid is_real_sha256
  sources_are_sha256 = ground arith

  manifest_is_valid-new_manifest :
      manifest_is_valid h (new_manifest files h now identity task_identity payload) ≡ true
  unfolding manifest_is_valid new_manifest is_utc
  manifest_is_valid-new_manifest = ground (
    arith,
    sources_are_sha256.0,
    sources_are_sha256.1,
    cache_key_lem,
    lawful.digest_is_sha256 payload,
    eq_refl (cache_key h identity),
    eq_refl identity.source_implementation_sha256,
    eq_refl identity.dependency_lock_sha256,
    eq_refl (artifact_kind_text identity.artifact_kind),
  )

  marker_is_valid-new_marker :
      (m : CacheArtifactManifest) → marker_is_valid (new_marker files h m payload) ≡ true
  unfolding marker_is_valid new_marker
  marker_is_valid-new_marker m =
      ground
        (arith, lawful.digest_is_sha256 payload, lawful.digest_is_sha256 (files.manifest_text m))

  entry_matches-new_manifest :
      (name : String) (allow_transaction : Bool)
      → (allow_transaction || name == cache_key h identity) ≡ true
      → let m = new_manifest files h now identity task_identity payload in
        entry_matches files h name
          (cache_key h identity)
          identity
          allow_transaction
          payload
          (files.manifest_text m)
          m
          (new_marker files h m payload)
        ≡ true
  unfolding entry_matches new_manifest new_marker
  entry_matches-new_manifest name allow_transaction placed = ground (
    arith,
    eq_refl (cache_key h identity),
    identity_eq_refl identity,
    eq_refl (files.sha256_file payload),
    eq_refl (
        files.sha256_file
          (files.manifest_text (new_manifest files h now identity task_identity payload))),
  )

  pub validate_directory-transaction_files :
      (path name : String) (allow_transaction : Bool)
      → (allow_transaction || name == cache_key h identity) ≡ true
      → let m = new_manifest files h now identity task_identity payload in
        validate_directory files h path name
          (transaction_files files h m payload)
          (cache_key h identity)
          identity
          allow_transaction
        ≡ ok (artifact_of files h path (cache_key h identity) m payload)
  unfolding transaction_files open_file is_entry_layout lookup contains
  validate_directory-transaction_files path name allow_transaction placed =
      ok_of_Checks files h path name _ _ identity allow_transaction (record {
        payload = payload;
        manifest_file =
            files.manifest_text (new_manifest files h now identity task_identity payload);
        marker_file =
            files.marker_text (
              new_marker files h (new_manifest files h now identity task_identity payload) payload);
        manifest = new_manifest files h now identity task_identity payload;
        marker =
            new_marker files h (new_manifest files h now identity task_identity payload) payload;
        layout = refl;
        has_manifest = refl;
        has_marker = refl;
        parses = lawful.manifest_round_trip _;
        manifest_valid = manifest_is_valid-new_manifest;
        parses_marker = lawful.marker_round_trip _;
        marker_valid = marker_is_valid-new_marker _;
        has_payload = refl;
        agree = entry_matches-new_manifest name allow_transaction placed;
        result = refl;
      })

  -- The transaction of a payload that did not change while it was copied.
  pub build_transaction_lem :
      (path name : String)
      → build_transaction files h now path name identity task_identity payload
          (files.sha256_file payload)
          (files.file_size payload)
        ≡ ok (
            transaction_files files h
              (new_manifest files h now identity task_identity payload)
              payload)
  unfolding build_transaction
  build_transaction_lem path name = rw (eqb_refl (files.file_size payload)) (
      rw (eq_refl (files.sha256_file payload)) (
        rw manifest_is_valid-new_manifest (
          rw (marker_is_valid-new_marker (new_manifest files h now identity task_identity payload))
            (rw (validate_directory-transaction_files path name true refl) refl))))
