-- ===== src/Tests/StoreRuns.antt =====
-- The cache store on concrete files.
use Prim.Native.String.{◌++◌ as ◌+text◌}
use schema_guard.Hashing.{sha256_canonical_json}
use schema_guard.Base.{
  ◌≡◌, refl, ◌⊎◌, ℕ, String, true, false, none, some, List, [], ◌∷◌, All, ok, err, cache_integrity,
  length, codes,
}
use schema_guard.Base.Dict.{lookup, contains}
use schema_guard.Cache.Manifest.{
  manifest_is_valid, marker_is_valid, is_utc, CacheArtifactManifest, CompletionMarker,
}
use schema_guard.Cache.Files.{Files, IsLawful}
use schema_guard.Cache.Identity.{
  identity_eq, artifact_kind_text, cache_key, is_sha256, is_real_sha256, identity_is_valid,
}
use schema_guard.Cache.Entry.{
  build_transaction, new_manifest, new_marker, transaction_files, validate_directory,
  is_entry_layout, open_file, entry_matches, artifact_of, entry_path, CacheArtifact, Directory,
  file, payload_name,
}
use schema_guard.Cache.Store.{
  Store, moved, refused, validate_entry, read_validated, load_payload, publish_bytes,
  publish_stream, install, quarantine_invalid, disk_states,
}
use schema_guard.Cache.Store.RoundTrip.{
  publish_bytes-load_payload, stored, new_artifact, read_validated-stored,
}
use schema_guard.Cache.Store.Immutable.{StoreOp, put_bytes, put_aside, run_store_ops}
use schema_guard.Cache.Store.Reads.{
  run_store_ops-read_validated, read_validated-Certified, Certified,
}
use schema_guard.Cache.Store.Conflicts.{valid_entry_held, publish_stream_error}
use schema_guard.Cache.Store.Repair.{quarantine_invalid-publish_bytes, disk_states-read}
use schema_guard.Tests.Samples.{ones, sample_id, sample_digest, sample_identity}

pub data Content : Type 0 where
  bytes : String → Content
  manifest_json : CacheArtifactManifest → Content
  marker_json : CompletionMarker → Content

abbrev sha256 : Content → String
sha256 (bytes s) = ones
sha256 _ = sample_id

abbrev size : Content → ℕ
size (bytes s) = length (codes s)
size _ = 400

abbrev pub sample_files : Files Content
sample_files = record {
  sha256_file = sha256;
  file_size = size;
  manifest_text = manifest_json;
  parse_manifest = λ c. elim c [ manifest_json m ↦ some m | _ ↦ none ];
  marker_text = marker_json;
  parse_marker = λ c. elim c [ marker_json k ↦ some k | _ ↦ none ];
}

hex_of_sha256 : (c : Content) → is_sha256 (sha256 c) ≡ true
unfolding is_sha256
hex_of_sha256 (bytes s) = refl
hex_of_sha256 (manifest_json m) = refl
hex_of_sha256 (marker_json k) = refl

pub sample_files-IsLawful : IsLawful sample_files
sample_files-IsLawful = record {
  digest_is_sha256 = hex_of_sha256;
  manifest_round_trip = λ m. refl;
  marker_round_trip = λ k. refl;
}

pub sample_id_lem : is_sha256 sample_id ≡ true
unfolding is_sha256
sample_id_lem = refl

pub identity_lem : identity_is_valid sample_identity ≡ true
unfolding identity_is_valid is_real_sha256 is_sha256
identity_lem = refl

abbrev pub no_store : Store Content
no_store = record { entries = []; transactions = []; quarantine = [] }

abbrev pub payload : Content
payload = bytes "payload"

abbrev pub sample_artifact : CacheArtifact
sample_artifact =
    new_artifact sample_files sample_files-IsLawful sample_digest (λ v. sample_id_lem) 7
      sample_identity sample_id payload identity_lem sample_id_lem no_store

abbrev pub sample_store : Store Content
sample_store =
    stored sample_files sample_files-IsLawful sample_digest (λ v. sample_id_lem) 7 sample_identity
      sample_id payload identity_lem sample_id_lem no_store

-- Two publications and a request to put the entry aside.
abbrev later_ops : List (StoreOp Content)
later_ops =
    put_bytes 8 moved sample_identity (bytes "other") sample_id
    ∷ put_aside "0f" sample_identity
    ∷ put_bytes 9 refused sample_identity payload sample_id
    ∷ []

publish_bytes-load_payload_example :
    let run =
      publish_bytes sample_files sample_digest 7 moved sample_identity payload sample_id no_store in
    (run.0 ≡ ok (record { artifact = sample_artifact; reused_existing = false }))
    × (read_validated sample_files sample_digest sample_identity
          (run_store_ops sample_files sample_digest later_ops run.1)
        ≡ ok (some sample_artifact))
    × (load_payload sample_files sample_digest sample_identity
          (run_store_ops sample_files sample_digest later_ops run.1)
        ≡ ok payload)
unfolding lookup
publish_bytes-load_payload_example =
    publish_bytes-load_payload sample_files sample_files-IsLawful sample_digest (λ v. sample_id_lem)
      7 sample_identity sample_id payload identity_lem sample_id_lem no_store later_ops refl
      (tt, ((λ same. refl), (tt, tt)))

pub stored_lem :
    read_validated sample_files sample_digest sample_identity sample_store
    ≡ ok (some sample_artifact)
stored_lem =
    read_validated-stored sample_files sample_files-IsLawful sample_digest (λ v. sample_id_lem) 7
      sample_identity sample_id payload identity_lem sample_id_lem no_store

run_store_ops-read_validated_example :
    let s = run_store_ops sample_files sample_digest later_ops sample_store in
    (read_validated sample_files sample_digest sample_identity s ≡ ok (some sample_artifact))
    × (load_payload sample_files sample_digest sample_identity s
        ≡ load_payload sample_files sample_digest sample_identity sample_store)
run_store_ops-read_validated_example =
    run_store_ops-read_validated sample_files sample_digest sample_identity sample_store
      sample_artifact later_ops stored_lem (tt, ((λ same. refl), (tt, tt)))

read_validated-Certified_example :
    (d : Directory Content) × (found : Content) × (lookup
        (cache_key sample_digest sample_identity)
        sample_store.entries
      ≡ some d)
    × (load_payload sample_files sample_digest sample_identity sample_store ≡ ok found)
    × Certified sample_files sample_digest sample_identity d found sample_artifact
read_validated-Certified_example =
    read_validated-Certified sample_files sample_digest sample_identity sample_store sample_artifact
      stored_lem

valid_entry_held_example :
    (publish_bytes sample_files sample_digest 8 moved sample_identity
        (bytes "longer than it")
        sample_id
        sample_store
      ≡ (err cache_integrity, sample_store))
    × (quarantine_invalid sample_files sample_digest "0f" sample_identity sample_store
        ≡ (err cache_integrity, sample_store))
unfolding artifact_of
valid_entry_held_example =
    valid_entry_held sample_files sample_digest 8 moved sample_identity (bytes "longer than it")
      sample_id "0f" sample_store sample_artifact sample_id_lem stored_lem

refused_lem :
    (publish_stream sample_files sample_digest 7 refused sample_identity sample_id payload ones 7
      no_store).0
    ≡ err cache_integrity
unfolding publish_stream install build_transaction new_manifest new_marker transaction_files
    validate_directory is_entry_layout contains open_file lookup manifest_is_valid marker_is_valid
    identity_is_valid is_real_sha256 is_sha256 is_utc entry_matches artifact_of identity_eq
    cache_key sha256_canonical_json entry_path artifact_kind_text
refused_lem = refl

publish_stream_error_example :
    (publish_stream sample_files sample_digest 7 refused sample_identity sample_id payload ones 7
      no_store).1
    ≡ no_store
publish_stream_error_example =
    publish_stream_error sample_files sample_digest 7 refused sample_identity sample_id payload ones
      7 no_store cache_integrity tt refused_lem

-- An entry that lost its manifest and its marker.
abbrev partial : Directory Content
partial = (payload_name, file payload) ∷ []

abbrev partial_store : Store Content
partial_store = record { entries = (sample_id, partial) ∷ []; transactions = []; quarantine = [] }

partial_lem :
    validate_entry sample_files sample_digest sample_identity partial ≡ err cache_integrity
unfolding validate_entry validate_directory is_entry_layout contains
partial_lem = refl

quarantine_invalid-publish_bytes_example :
    let run = quarantine_invalid sample_files sample_digest "0f" sample_identity partial_store in
    (run.0 ≡ ok (some ((sample_id +text "-") +text "0f")))
    × (run.1.quarantine ≡ ((sample_id +text "-") +text "0f", partial) ∷ [])
    × (read_validated sample_files sample_digest sample_identity run.1 ≡ ok none)
    × (load_payload sample_files sample_digest sample_identity (
          run_store_ops sample_files sample_digest later_ops
            (publish_bytes sample_files sample_digest 7 moved sample_identity payload sample_id
              run.1).1)
        ≡ ok payload)
unfolding cache_key sha256_canonical_json lookup
quarantine_invalid-publish_bytes_example =
    quarantine_invalid-publish_bytes sample_files sample_files-IsLawful sample_digest
      (λ v. sample_id_lem) 7 sample_identity sample_id payload identity_lem sample_id_lem
      partial_store "0f" partial cache_integrity later_ops refl partial_lem
      (tt, ((λ same. refl), (tt, tt)))

disk_states-read_example :
    All
      (λ s'.
        ((read_validated sample_files sample_digest sample_identity s' ≡ ok none)
          × (s'.entries ≡ []))
        ⊎ ((load_payload sample_files sample_digest sample_identity s' ≡ ok payload)
            × (s'
                ≡ (publish_bytes sample_files sample_digest 7 moved sample_identity payload
                    sample_id no_store).1)))
      (disk_states sample_files sample_digest 7 sample_identity sample_id payload no_store)
unfolding lookup
disk_states-read_example =
    disk_states-read sample_files sample_files-IsLawful sample_digest (λ v. sample_id_lem) 7
      sample_identity sample_id payload identity_lem sample_id_lem no_store refl
