-- ===== src/Cache/Store/Reads.antt =====
-- cache/store.py: what a validated read certifies, and that later operations cannot change it.
use schema_guard.Base.{
  ◌≡◌, refl, sym, ap, ◌∙◌, inl, inr, true, false, some, List, All, ok, arith, Bool-cases,
  Option-cases, Result-cases,
}
use schema_guard.Base.Dict.{lookup}
use schema_guard.Hashing.{Digest}
use schema_guard.Cache.Identity.{CacheIdentity, is_sha256, cache_key}
use schema_guard.Cache.Manifest.{CacheArtifactManifest, CompletionMarker}
use schema_guard.Cache.Files.{Files}
use schema_guard.Cache.Entry.{
  Directory, CacheArtifact, payload_name, manifest_name, marker_name, open_file, found, artifact_of,
}
use schema_guard.Cache.Entry.Checks.{Checks-of_ok, Agree, entry_matches-Agree}
use schema_guard.Cache.Store.{Store, validate_entry, read_validated, load_payload}
use schema_guard.Cache.Store.Immutable.{StoreOp, run_store_ops, NoCollision, run_store_ops-keeps}

module _ {B : Type 0} (files : Files B) (h : Digest) (identity : CacheIdentity) where
  -- The directory that a validated read has found.
  pub read_validated-eq-some :
      (s : Store B) (a : CacheArtifact)
      → read_validated files h identity s ≡ ok (some a)
      → (d : Directory B) × (is_sha256 (cache_key h identity) ≡ true)
        × (lookup (cache_key h identity) s.entries ≡ some d)
        × (validate_entry files h identity d ≡ ok a)
  unfolding read_validated
  read_validated-eq-some s a e = elim (Bool-cases (is_sha256 (cache_key h identity))) [
    | inr bad ↦ ground arith
    | inl good ↦ elim (Option-cases (lookup (cache_key h identity) s.entries)) [
      | inl free ↦ ground arith
      | inr (d, there) ↦ elim (Result-cases (validate_entry files h identity d)) [
        | inr (x, invalid) ↦ ground arith
        | inl (b, valid) ↦ (d, good, there, ground arith)
      ]
    ]
  ]

  pub read_validated_lem :
      (s : Store B) (a : CacheArtifact) (d : Directory B)
      → is_sha256 (cache_key h identity) ≡ true
      → lookup (cache_key h identity) s.entries ≡ some d
      → validate_entry files h identity d ≡ ok a
      → read_validated files h identity s ≡ ok (some a)
  unfolding read_validated
  read_validated_lem s a d good there valid = rw good (rw there (rw valid refl))

  load_payload_lem :
      (s : Store B) (a : CacheArtifact) (d : Directory B)
      → read_validated files h identity s ≡ ok (some a)
      → lookup (cache_key h identity) s.entries ≡ some d
      → load_payload files h identity s ≡ found (open_file payload_name d)
  unfolding load_payload
  load_payload_lem s a d e there = rw e (rw there refl)

  -- A read that returned an artifact returns it again, with the same payload, after any later
  -- operations on the store, as long as no entry is put aside for another identity of its key.
  pub run_store_ops-read_validated :
      (s : Store B) (a : CacheArtifact) (ops : List (StoreOp B))
      → read_validated files h identity s ≡ ok (some a)
      → All (NoCollision files h identity) ops
      → (read_validated files h identity (run_store_ops files h ops s) ≡ ok (some a))
        × (load_payload files h identity (run_store_ops files h ops s)
            ≡ load_payload files h identity s)
  run_store_ops-read_validated s a ops e apart =
      let (d, good, there, valid) = read_validated-eq-some s a e in
      let still = run_store_ops-keeps files h identity d a valid ops s apart there in
      let again = read_validated_lem (run_store_ops files h ops s) a d good still valid in
      (
        again,
        load_payload_lem (run_store_ops files h ops s) a d again still
            ∙ sym (load_payload_lem s a d e there),
      )

  -- What the manifest and the marker beside a payload say of it.
  pub record Certified (d : Directory B) (payload : B) (a : CacheArtifact) : Type 0 where
    pub manifest_file : B
    pub manifest : CacheArtifactManifest
    pub marker_file : B
    pub marker : CompletionMarker
    pub written : open_file manifest_name d ≡ some manifest_file
    pub parses : files.parse_manifest manifest_file ≡ some manifest
    pub marked : open_file marker_name d ≡ some marker_file
    pub parses_marker : files.parse_marker marker_file ≡ some marker
    pub agree :
        Agree files h
          (cache_key h identity)
          (cache_key h identity)
          identity
          payload
          manifest_file
          manifest
          marker
    pub artifact_digest : a.payload_sha256 ≡ files.sha256_file payload
    pub artifact_size : a.payload_size_bytes ≡ files.file_size payload
    pub artifact_key : a.cache_key ≡ cache_key h identity

  validate_entry-Certified :
      (d : Directory B) (a : CacheArtifact)
      → validate_entry files h identity d ≡ ok a
      → (payload : B) × (open_file payload_name d ≡ some payload) × Certified d payload a
  unfolding validate_entry artifact_of
  validate_entry-Certified d a e =
      let c = Checks-of_ok files h _ _ d _ identity false e in
      (
        c.payload,
        c.has_payload,
        record {
          manifest_file = c.manifest_file;
          manifest = c.manifest;
          marker_file = c.marker_file;
          marker = c.marker;
          written = c.has_manifest;
          parses = c.parses;
          marked = c.has_marker;
          parses_marker = c.parses_marker;
          agree =
              entry_matches-Agree files h _ _ identity c.payload c.manifest_file c.manifest c.marker
                false c.agree;
          artifact_digest = ap (λ x. x.payload_sha256) (sym c.result);
          artifact_size = ap (λ x. x.payload_size_bytes) (sym c.result);
          artifact_key = ap (λ x. x.cache_key) (sym c.result);
        },
      )

  -- A read that returned an artifact has found a payload that the manifest of this identity
  -- describes by digest and size and that the completion marker names together with the manifest,
  -- and it is the payload that is loaded.
  pub read_validated-Certified :
      (s : Store B) (a : CacheArtifact)
      → read_validated files h identity s ≡ ok (some a)
      → (d : Directory B) × (payload : B) × (lookup (cache_key h identity) s.entries ≡ some d)
        × (load_payload files h identity s ≡ ok payload)
        × Certified d payload a
  read_validated-Certified s a e =
      let (d, good, there, valid) = read_validated-eq-some s a e in
      let (payload, held, certified) = validate_entry-Certified d a valid in
      (d, payload, there, load_payload_lem s a d e there ∙ ap found held, certified)
