-- ===== src/Cache/Entry/Checks.antt =====
-- cache/store.py: `_validate_directory` taken apart, and what it certifies.
use schema_guard.Base.{
  ◌≡◌, refl, ap, none, String, Bool, true, false, Option, some, Result, ok, ◌>>=◌, ◌>>◌,
  ok-injective, ◌==◌, eq_iff, arith,
}
use schema_guard.Hashing.{Digest}
use schema_guard.Cache.Identity.{cache_key, CacheIdentity, identity_eq-eq}
use schema_guard.Cache.Manifest.{
  CacheArtifactManifest, manifest_is_valid, CompletionMarker, marker_is_valid,
}
use schema_guard.Cache.Files.{Files}
use schema_guard.Cache.Entry.{
  Directory, CacheArtifact, payload_name, manifest_name, marker_name, is_entry_layout, open_file,
  found, require, validated, entry_matches, artifact_of, validate_directory,
}

pub require-eq-ok :
    {A : Type 0} (b : Bool) (next : Result A) {a : A}
    → (require b >> next) ≡ ok a
    → (b ≡ true) × (next ≡ ok a)
require-eq-ok true next e = (refl, e)
require-eq-ok false next e = cc

pub validated-eq-ok :
    {A : Type 0} (b : Bool) (next : Result A) {a : A}
    → (validated b >> next) ≡ ok a
    → (b ≡ true) × (next ≡ ok a)
validated-eq-ok true next e = (refl, e)
validated-eq-ok false next e = cc

pub found-eq-ok :
    {A B : Type 0} (o : Option A) (next : A → Result B) {b : B}
    → (found o >>= next) ≡ ok b
    → (a : A) × (o ≡ some a) × (next a ≡ ok b)
found-eq-ok (some a) next e = (a, refl, e)
found-eq-ok none next e = cc

module _ {B : Type 0} (files : Files B) (h : Digest) (name key : String) (identity : CacheIdentity)
    (payload manifest_file : B) (manifest : CacheArtifactManifest) (marker : CompletionMarker) where
  -- The manifest and the marker describe the payload, for this identity.
  pub record Agree : Type 0 where
    pub own : manifest.identity ≡ identity
    pub keyed : manifest.cache_key ≡ key
    pub passed : manifest.validation_status ≡ "PASS"
    pub complete : manifest.completed ≡ true
    pub same_size : files.file_size payload ≡ manifest.payload_size_bytes
    pub same_digest : files.sha256_file payload ≡ manifest.payload_sha256
    pub marks_manifest : marker.manifest_sha256 ≡ files.sha256_file manifest_file
    pub marks_payload : marker.payload_sha256 ≡ files.sha256_file payload

  pub entry_matches-Agree :
      (allow_transaction : Bool)
      → entry_matches files h name key identity allow_transaction payload manifest_file manifest
          marker
        ≡ true
      → Agree
  unfolding entry_matches
  entry_matches-Agree allow_transaction e = record {
    own = identity_eq-eq manifest.identity identity (ground arith);
    keyed = ground (arith, eq_iff manifest.cache_key key);
    passed = ground (arith, eq_iff manifest.validation_status "PASS");
    complete = ground arith;
    same_size = ground arith;
    same_digest = ground (arith, eq_iff (files.sha256_file payload) manifest.payload_sha256);
    marks_manifest =
        ground (arith, eq_iff marker.manifest_sha256 (files.sha256_file manifest_file));
    marks_payload = ground (arith, eq_iff marker.payload_sha256 (files.sha256_file payload));
  }

  -- An entry stands under the key of its identity.
  pub entry_matches-cache_key :
      entry_matches files h name key identity false payload manifest_file manifest marker ≡ true
      → (name ≡ key) × (cache_key h identity ≡ key)
  unfolding entry_matches
  entry_matches-cache_key e =
      (ground (arith, eq_iff name key), ground (arith, eq_iff (cache_key h identity) key))

  -- What passes for a transaction passes in the directory of the key.
  pub entry_matches-final :
      name == key ≡ true
      → entry_matches files h name key identity true payload manifest_file manifest marker ≡ true
      → entry_matches files h name key identity false payload manifest_file manifest marker ≡ true
  unfolding entry_matches
  entry_matches-final placed e = rw placed e

module _ {B : Type 0} (files : Files B) (h : Digest) (path name : String) (d : Directory B)
    (key : String) (identity : CacheIdentity) (allow_transaction : Bool) where
  -- What each statement of the validation has found.
  pub record Checks (a : CacheArtifact) : Type 0 where
    pub payload : B
    pub manifest_file : B
    pub marker_file : B
    pub manifest : CacheArtifactManifest
    pub marker : CompletionMarker
    pub layout : is_entry_layout d ≡ true
    pub has_manifest : open_file manifest_name d ≡ some manifest_file
    pub has_marker : open_file marker_name d ≡ some marker_file
    pub parses : files.parse_manifest manifest_file ≡ some manifest
    pub manifest_valid : manifest_is_valid h manifest ≡ true
    pub parses_marker : files.parse_marker marker_file ≡ some marker
    pub marker_valid : marker_is_valid marker ≡ true
    pub has_payload : open_file payload_name d ≡ some payload
    pub agree :
        entry_matches files h name key identity allow_transaction payload manifest_file manifest
          marker
        ≡ true
    pub result : artifact_of files h path key manifest payload ≡ a

  pub Checks-of_ok :
      {a : CacheArtifact}
      → validate_directory files h path name d key identity allow_transaction ≡ ok a
      → Checks a
  unfolding validate_directory
  Checks-of_ok e =
      let (layout, e1) = require-eq-ok _ _ e in
      let (manifest_file, has_manifest, e2) = found-eq-ok _ _ e1 in
      let (marker_file, has_marker, e3) = found-eq-ok _ _ e2 in
      let (manifest, parses, e4) = found-eq-ok _ _ e3 in
      let (manifest_valid, e5) = require-eq-ok _ _ e4 in
      let (marker, parses_marker, e6) = found-eq-ok _ _ e5 in
      let (marker_valid, e7) = require-eq-ok _ _ e6 in
      let (payload, has_payload, e8) = found-eq-ok _ _ e7 in
      let (agree, e9) = require-eq-ok _ _ e8 in
      record {
        payload = payload;
        manifest_file = manifest_file;
        marker_file = marker_file;
        manifest = manifest;
        marker = marker;
        layout = layout;
        has_manifest = has_manifest;
        has_marker = has_marker;
        parses = parses;
        manifest_valid = manifest_valid;
        parses_marker = parses_marker;
        marker_valid = marker_valid;
        has_payload = has_payload;
        agree = agree;
        result = ok-injective e9;
      }

  pub ok_of_Checks :
      {a : CacheArtifact}
      → Checks a
      → validate_directory files h path name d key identity allow_transaction ≡ ok a
  unfolding validate_directory
  ok_of_Checks c = rw c.layout (
      rw c.has_manifest (
        rw c.has_marker (
          rw c.parses (
            rw c.manifest_valid (
              rw c.parses_marker
                (rw c.marker_valid (rw c.has_payload (rw c.agree (ap ok c.result)))))))))
