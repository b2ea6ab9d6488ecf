-- ===== src/Cache/Store/Conflicts.antt =====
-- cache/store.py: publications that find an entry, invalid entries, and publications that fail.
use Prim.Native.String.{◌++◌ as ◌+text◌}
use schema_guard.Base.{
  ◌≡◌, refl, subst, inl, inr, ℕ, String, true, false, some, [], ◌∷◌, ◌++◌, Error, ok, err,
  cache_integrity, if◌then◌else◌, ◌==◌, ◌&&◌, eqb, eq_refl, Bool-cases, Option-cases, Result-cases,
  ok-injective, ok-ne-err, >>-eq-ok,
}
use schema_guard.Base.Dict.{lookup, remove}
use schema_guard.Hashing.{Digest}
use schema_guard.Cache.Identity.{CacheIdentity, is_sha256, cache_key}
use schema_guard.Cache.Files.{Files}
use schema_guard.Cache.Entry.{
  Directory, CacheArtifact, entry_path, build_transaction, validate_directory,
}
use schema_guard.Cache.Entry.Checks.{
  Checks-of_ok, ok_of_Checks, require-eq-ok, validated-eq-ok, entry_matches-final,
}
use schema_guard.Cache.Store.{
  Store, Replace, moved, refused, lost_to, validate_entry, read_validated, reuse, same_payload,
  publish_stream, publish_bytes, install, quarantine_invalid,
}
use schema_guard.Cache.Store.Reads.{read_validated-eq-some}

module _ {B : Type 0} (files : Files B) (h : Digest) where
  -- Publishing bytes, for a task named by a digest, under an identity whose entry is valid changes
  -- nothing: the entry is reused if its digest and its size are those of the bytes, and
  -- CacheIntegrityError is raised if not.
  publish_bytes_held :
      (now : ℕ) (replace : Replace B) (identity : CacheIdentity) (payload : B)
      (task_identity : String) (s : Store B) (a : CacheArtifact)
      → is_sha256 task_identity ≡ true
      → read_validated files h identity s ≡ ok (some a)
      → publish_bytes files h now replace identity payload task_identity s ≡ (
        (if a.payload_sha256 == files.sha256_file payload
              && eqb a.payload_size_bytes (files.file_size payload)
            then ok (record { artifact = a; reused_existing = true })
            else err cache_integrity),
        s,
      )
  unfolding publish_bytes publish_stream reuse same_payload
  publish_bytes_held now replace identity payload task_identity s a named e =
      let (d, good, there, valid) = read_validated-eq-some files h identity s a e in
      rw named (rw good (rw there (rw valid refl)))

  -- A valid entry is not put aside: the request raises and changes nothing.
  quarantine_invalid_held :
      (unique : String) (identity : CacheIdentity) (s : Store B) (a : CacheArtifact)
      → read_validated files h identity s ≡ ok (some a)
      → quarantine_invalid files h unique identity s ≡ (err cache_integrity, s)
  unfolding quarantine_invalid
  quarantine_invalid_held unique identity s a e =
      let (d, good, there, valid) = read_validated-eq-some files h identity s a e in
      rw good (rw there (rw valid refl))

  -- A valid entry stays as it is. Publishing bytes, for a task named by a digest, under its identity
  -- changes nothing: the entry is reused if its digest and its size are those of the bytes, and
  -- CacheIntegrityError is raised if not. A request to put it aside raises and changes nothing.
  pub valid_entry_held :
      (now : ℕ) (replace : Replace B) (identity : CacheIdentity) (payload : B)
      (task_identity unique : String) (s : Store B) (a : CacheArtifact)
      → is_sha256 task_identity ≡ true
      → read_validated files h identity s ≡ ok (some a)
      → (publish_bytes files h now replace identity payload task_identity s ≡ (
        (if a.payload_sha256 == files.sha256_file payload
              && eqb a.payload_size_bytes (files.file_size payload)
            then ok (record { artifact = a; reused_existing = true })
            else err cache_integrity),
        s,
      ))
        × (quarantine_invalid files h unique identity s ≡ (err cache_integrity, s))
  valid_entry_held now replace identity payload task_identity unique s a named e = (
    publish_bytes_held now replace identity payload task_identity s a named e,
    quarantine_invalid_held unique identity s a e,
  )

  pub quarantine_invalid_lem :
      (unique : String) (identity : CacheIdentity) (s : Store B) (d : Directory B) (e : Error)
      → is_sha256 (cache_key h identity) ≡ true
      → lookup (cache_key h identity) s.entries ≡ some d
      → validate_entry files h identity d ≡ err e
      → let name = (cache_key h identity +text "-") +text unique in
        quarantine_invalid files h unique identity s ≡ (
          ok (some name),
          record s {
            entries = remove (cache_key h identity) s.entries;
            quarantine = s.quarantine ++ (name, d) ∷ [];
          },
        )
  unfolding quarantine_invalid
  quarantine_invalid_lem unique identity s d e good there invalid =
      rw good (rw there (rw invalid refl))

  -- A directory that validates as a transaction validates under the name of its key.
  validate_directory-final :
      (path name : String) (d : Directory B) (key : String) (identity : CacheIdentity)
      {a : CacheArtifact}
      → name == key ≡ true
      → validate_directory files h path name d key identity true ≡ ok a
      → validate_directory files h path name d key identity false ≡ ok a
  validate_directory-final path name d key identity placed e =
      let c = Checks-of_ok files h path name d key identity true e in
      ok_of_Checks files h path name d key identity false (record {
        payload = c.payload;
        manifest_file = c.manifest_file;
        marker_file = c.marker_file;
        manifest = c.manifest;
        marker = c.marker;
        layout = c.layout;
        has_manifest = c.has_manifest;
        has_marker = c.has_marker;
        parses = c.parses;
        manifest_valid = c.manifest_valid;
        parses_marker = c.parses_marker;
        marker_valid = c.marker_valid;
        has_payload = c.has_payload;
        agree =
            entry_matches-final files h name key identity c.payload c.manifest_file c.manifest
              c.marker placed c.agree;
        result = c.result;
      })

  build_transaction-valid :
      (now : ℕ) (identity : CacheIdentity) (task_identity : String) (payload : B) (hash : String)
      (size : ℕ) (d : Directory B)
      → build_transaction files h now
          (entry_path (cache_key h identity))
          (cache_key h identity)
          identity
          task_identity
          payload
          hash
          size
        ≡ ok d
      → (a : CacheArtifact) × (validate_entry files h identity d ≡ ok a)
  unfolding build_transaction validate_entry
  build_transaction-valid now identity task_identity payload hash size d e =
      let (_, e1) = require-eq-ok _ _ e in
      let (_, e2) = validated-eq-ok _ _ e1 in
      let (_, e3) = validated-eq-ok _ _ e2 in
      let (a, checked, e4) = >>-eq-ok _ _ e3 in
      (
        a,
        validate_directory-final (entry_path (cache_key h identity)) (cache_key h identity) d
            (cache_key h identity) identity (eq_refl (cache_key h identity))
            (subst
              (λ x.
                validate_directory files h (entry_path (cache_key h identity))
                  (cache_key h identity) x (cache_key h identity) identity true
                ≡ ok a)
              (ok-injective e4) checked),
      )

  -- The move succeeds or fails without a directory of another writer.
  abbrev pub OwnMove : Replace B → Type 0
  OwnMove moved = Unit
  OwnMove refused = Unit
  OwnMove (lost_to winner) = ⊥

  install_error :
      (replace : Replace B) (identity : CacheIdentity) (hash : String) (size : ℕ) (d : Directory B)
      (s : Store B) (e : Error)
      → OwnMove replace
      → (a : CacheArtifact) × (validate_entry files h identity d ≡ ok a)
      → (install files h replace identity hash size d s).0 ≡ err e
      → (install files h replace identity hash size d s).1 ≡ s
  unfolding install
  install_error moved identity hash size d s e own (a, valid) raised =
      let x : ok (record { artifact = a; reused_existing = false }) ≡ err e = rw valid at raised in
      absurd (ok-ne-err x)
  install_error refused identity hash size d s e own (a, valid) raised = refl
  install_error (lost_to winner) identity hash size d s e own (a, valid) raised = absurd own

  -- A publication that raises leaves the store as it was, unless another writer's directory
  -- appeared in its place.
  pub publish_stream_error :
      (now : ℕ) (replace : Replace B) (identity : CacheIdentity) (task_identity : String)
      (payload : B) (hash : String) (size : ℕ) (s : Store B) (e : Error)
      → OwnMove replace
      → (publish_stream files h now replace identity task_identity payload hash size s).0 ≡ err e
      → (publish_stream files h now replace identity task_identity payload hash size s).1 ≡ s
  unfolding publish_stream
  publish_stream_error now replace identity task_identity payload hash size s e own raised =
      let key = cache_key h identity in
      elim (Bool-cases (is_sha256 task_identity && is_sha256 key)) [
        | inr bad ↦ rw bad refl
        | inl good ↦ elim (Option-cases (lookup key s.entries)) [
          | inr (v, there) ↦ rw good (rw there refl)
          | inl free ↦
              elim (Result-cases (
                build_transaction files h now (entry_path key) key identity task_identity payload
                  hash size)) [
                    | inr (x, failed) ↦ rw good (rw free (rw failed refl))
                    | inl (d, built) ↦ rw good (
                        rw free (
                          rw built (
                            install_error replace identity hash size d s e own
                              (build_transaction-valid now identity task_identity payload hash size
                                d built)
                              (rw built at (rw free at (rw good at raised))))))
                  ]
        ]
      ]
