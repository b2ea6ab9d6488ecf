-- ===== src/Cache/Store/RoundTrip.antt =====
-- cache/store.py: what is published is what is read.
use schema_guard.Base.{◌≡◌, refl, ℕ, String, true, false, none, some, ok, eq_refl, List, All, ◌∙◌}
use schema_guard.Base.Dict.{lookup, insert, lookup-insert}
use schema_guard.Hashing.{Json, Digest}
use schema_guard.Cache.Identity.{CacheIdentity, is_sha256, identity_is_valid, cache_key}
use schema_guard.Cache.Files.{Files, IsLawful}
use schema_guard.Cache.Entry.{
  Directory, CacheArtifact, entry_path, open_file, artifact_of, new_manifest, transaction_files,
}
use schema_guard.Cache.Entry.Build.{
  cache_key_lem, validate_directory-transaction_files, build_transaction_lem,
}
use schema_guard.Cache.Store.Immutable.{StoreOp, run_store_ops, NoCollision}
use schema_guard.Cache.Store.Reads.{run_store_ops-read_validated}
use schema_guard.Cache.Store.{
  Store, moved, validate_entry, read_validated, load_payload, publish_stream, publish_bytes,
  install,
}

module _ {B : Type 0} (files : Files B) (lawful : IsLawful files) (h : Digest)
    (hex : (v : Json) → is_sha256 (h v) ≡ true) (now : ℕ) (identity : CacheIdentity)
    (task_identity : String) (payload : B) (valid : identity_is_valid identity ≡ true)
    (named : is_sha256 task_identity ≡ true) (s : Store B) where
  abbrev pub new_artifact : CacheArtifact
  new_artifact =
      artifact_of files h (entry_path (cache_key h identity)) (cache_key h identity)
        (new_manifest files h now identity task_identity payload) payload

  validate_entry_lem :
      validate_entry files h identity (
        transaction_files files h (new_manifest files h now identity task_identity payload) payload)
      ≡ ok new_artifact
  unfolding validate_entry
  validate_entry_lem =
      validate_directory-transaction_files files lawful h hex now identity task_identity payload
        valid named (entry_path (cache_key h identity)) (cache_key h identity) false
        (eq_refl (cache_key h identity))

  abbrev pub new_directory : Directory B
  new_directory =
      transaction_files files h (new_manifest files h now identity task_identity payload) payload

  -- The cache once the publication is done.
  abbrev pub stored : Store B
  stored = record s { entries = insert (cache_key h identity) new_directory s.entries }

  pub publish_bytes_lem :
      lookup (cache_key h identity) s.entries ≡ none
      → publish_bytes files h now moved identity payload task_identity s
        ≡ (ok (record { artifact = new_artifact; reused_existing = false }), stored)
  unfolding publish_bytes publish_stream install
  publish_bytes_lem free = rw named (
      rw (cache_key_lem files lawful h hex now identity task_identity payload valid named) (
        rw free (
          rw
            (build_transaction_lem files lawful h hex now identity task_identity payload valid named
              (entry_path (cache_key h identity)) (cache_key h identity))
            (rw validate_entry_lem refl))))

  lookup-stored : lookup (cache_key h identity) stored.entries ≡ some new_directory
  lookup-stored =
      rw (lookup-insert (cache_key h identity) (cache_key h identity) new_directory s.entries)
        (rw (eq_refl (cache_key h identity)) refl)

  pub read_validated-stored : read_validated files h identity stored ≡ ok (some new_artifact)
  unfolding read_validated
  read_validated-stored =
      rw (cache_key_lem files lawful h hex now identity task_identity payload valid named)
        (rw lookup-stored (rw validate_entry_lem refl))

  pub load_payload-stored : load_payload files h identity stored ≡ ok payload
  unfolding load_payload transaction_files open_file lookup
  load_payload-stored = rw read_validated-stored (rw lookup-stored refl)

  -- With lawful files and digests, a payload that is published under a valid identity whose place
  -- is free, for a task named by a digest and with a move that succeeds, is stored under a
  -- manifest of its digest and size, and is what the identity's entry is read as after any later
  -- operations on the store that put no entry aside for another identity of its key.
  pub publish_bytes-load_payload :
      (ops : List (StoreOp B))
      → lookup (cache_key h identity) s.entries ≡ none
      → All (NoCollision files h identity) ops
      → let (result, s') = publish_bytes files h now moved identity payload task_identity s in
        (result ≡ ok (record { artifact = new_artifact; reused_existing = false }))
        × (read_validated files h identity (run_store_ops files h ops s') ≡ ok (some new_artifact))
        × (load_payload files h identity (run_store_ops files h ops s') ≡ ok payload)
  publish_bytes-load_payload ops free apart =
      let (again, same) =
        run_store_ops-read_validated files h identity stored new_artifact ops read_validated-stored
          apart in
      rw (publish_bytes_lem free) (refl, again, same ∙ load_payload-stored)
