-- ===== src/Cache/Store.antt =====
-- cache/store.py: `CacheStore`. The root directory of the cache is the state; an operation holds
-- the lock of its key, so it is one step.
pub mod RoundTrip
pub mod Immutable
pub mod Reads
pub mod Conflicts
pub mod Repair
pub mod Published
use Prim.Native.String.{◌++◌ as ◌+text◌}
use schema_guard.Base.{
  ℕ, String, Bool, true, false, not, ◌&&◌, Option, none, some, List, [], ◌∷◌, ◌++◌, map, prefixes,
  ◌==◌, eqb, if◌then◌else◌, Error, Result, ok, err, ◌>>=◌, cache_integrity, value_error,
}
use schema_guard.Base.Dict.{Dict, lookup, insert, remove}
use schema_guard.Hashing.{Digest}
use schema_guard.Cache.Identity.{CacheIdentity, cache_key, is_sha256}
use schema_guard.Cache.Manifest.{CacheArtifactManifest}
use schema_guard.Cache.Files.{Files}
use schema_guard.Cache.Entry.{
  Directory, CacheArtifact, entry_path, open_file, payload_name, manifest_name, found,
  validate_directory, build_transaction, new_manifest, transaction_files,
}

-- The entry directories by their key, the transactions that a killed process left behind, and
-- the entries that were put aside, by their new names.
pub record Store (B : Type 0) : Type 0 where
  pub entries : Dict (Directory B)
  pub transactions : List (Directory B)
  pub quarantine : List (String × Directory B)

pub record PublishResult : Type 0 where
  pub artifact : CacheArtifact
  pub reused_existing : Bool

-- What `os.replace` of a transaction does: it moves the directory, it raises OSError, or it
-- raises because a directory of that name has appeared.
pub data Replace (B : Type 0) : Type 0 where
  moved : Replace B
  refused : Replace B
  lost_to : (winner : Directory B) → Replace B

-- A source file that may change: what is hashed, what is measured and what is copied.
pub record Source (B : Type 0) : Type 0 where
  pub hashed : B
  pub measured : B
  pub copied : B

module _ {B : Type 0} (files : Files B) (h : Digest) where
  -- The entry of a key, as its identity's requests validate it.
  unfoldable pub validate_entry : CacheIdentity → Directory B → Result CacheArtifact
  validate_entry identity d =
      let key = cache_key h identity in
      validate_directory files h (entry_path key) key d key identity false

  unfoldable pub read_validated : CacheIdentity → Store B → Result (Option CacheArtifact)
  read_validated identity s =
      if is_sha256 (cache_key h identity)
      then elim (lookup (cache_key h identity) s.entries) [
        | none ↦ ok none
        | some d ↦ do artifact ← validate_entry identity d; ok (some artifact)
      ]
      else err value_error

  unfoldable pub load_payload : CacheIdentity → Store B → Result B
  load_payload identity s = do
    found_artifact ← read_validated identity s
    _ ← found found_artifact
    d ← found (lookup (cache_key h identity) s.entries)
    found (open_file payload_name d)

  -- The bytes that an artifact stands for are the bytes to publish.
  unfoldable pub same_payload : CacheArtifact → String → ℕ → Bool
  same_payload artifact hash size =
      artifact.payload_sha256 == hash && eqb artifact.payload_size_bytes size

  -- The answer for an entry that another publication made.
  unfoldable pub reuse : String → ℕ → CacheArtifact → Result PublishResult
  reuse hash size existing =
      if same_payload existing hash size
      then ok (record { artifact = existing; reused_existing = true })
      else err cache_integrity

  -- `os.replace` and what follows it.
  unfoldable pub install :
      Replace B
      → CacheIdentity
      → String
      → ℕ
      → Directory B
      → Store B
      → Result PublishResult × Store B
  install moved identity hash size d s = (
    do
      artifact ← validate_entry identity d
      ok (record { artifact = artifact; reused_existing = false }),
    record s { entries = insert (cache_key h identity) d s.entries },
  )
  install refused identity hash size d s = (err cache_integrity, s)
  install (lost_to winner) identity hash size d s = (
    do artifact ← validate_entry identity winner; reuse hash size artifact,
    record s { entries = insert (cache_key h identity) winner s.entries },
  )

  unfoldable pub publish_stream :
      ℕ
      → Replace B
      → CacheIdentity
      → String
      → B
      → String
      → ℕ
      → Store B
      → Result PublishResult × Store B
  publish_stream now replace identity task_identity payload hash size s =
      if is_sha256 task_identity && is_sha256 (cache_key h identity)
      then elim (lookup (cache_key h identity) s.entries) [
        | some d ↦ (do existing ← validate_entry identity d; reuse hash size existing, s)
        | none ↦
            elim (build_transaction files h now (entry_path (cache_key h identity))
              (cache_key h identity) identity task_identity payload hash size) [
                | ok d ↦ install replace identity hash size d s
                | err e ↦ (err e, s)
              ]
      ]
      else (err value_error, s)

  unfoldable pub publish_bytes :
      ℕ → Replace B → CacheIdentity → B → String → Store B → Result PublishResult × Store B
  publish_bytes now replace identity payload task_identity =
      publish_stream now replace identity task_identity payload (files.sha256_file payload)
        (files.file_size payload)

  -- `publish_file` and `publish_file_locked`; a source that is not a file is absent.
  unfoldable pub publish_file :
      ℕ
      → Replace B
      → CacheIdentity
      → Option (Source B)
      → String
      → Store B
      → Result PublishResult × Store B
  publish_file now replace identity none task_identity s = (err cache_integrity, s)
  publish_file now replace identity (some source) task_identity s =
      publish_stream now replace identity task_identity source.copied
        (files.sha256_file source.hashed) (files.file_size source.measured) s

  -- `quarantine_invalid` and its locked part; `unique` is `uuid4().hex`.
  unfoldable pub quarantine_invalid :
      String → CacheIdentity → Store B → Result (Option String) × Store B
  quarantine_invalid unique identity s =
      let key = cache_key h identity in
      if is_sha256 key
      then elim (lookup key s.entries) [
        | none ↦ (ok none, s)
        | some d ↦ elim (validate_entry identity d) [
          | ok artifact ↦ (err cache_integrity, s)
          | err e ↦
              let name = (key +text "-") +text unique in
              (
                ok (some name),
                record s {
                  entries = remove key s.entries;
                  quarantine = s.quarantine ++ (name, d) ∷ [];
                },
              )
        ]
      ]
      else (err value_error, s)

  -- What the disk holds after each write of a publication into a free place, up to the move.
  unfoldable pub disk_states : ℕ → CacheIdentity → String → B → Store B → List (Store B)
  disk_states now identity task_identity payload s =
      let manifest = new_manifest files h now identity task_identity payload in
      let d = transaction_files files h manifest payload in
      map (λ part. record s { transactions = part ∷ s.transactions }) (prefixes d)
      ++ record s { entries = insert (cache_key h identity) d s.entries } ∷ []
