-- ===== src/Cache/Store/Repair.antt =====
-- cache/store.py: an invalid entry is replaced, and a killed publication leaves no partial entry.
use Prim.Native.String.{◌++◌ as ◌+text◌}
use schema_guard.Base.{
  ◌≡◌, refl, sym, ap, ◌⊎◌, inl, inr, ℕ, String, true, none, some, [], ◌∷◌, ◌++◌, All, Error, ok,
  err, eq_refl, List,
}
use schema_guard.Base.Dict.{lookup, remove, lookup-remove}
use schema_guard.Hashing.{Json, Digest}
use schema_guard.Cache.Identity.{CacheIdentity, is_sha256, identity_is_valid, cache_key}
use schema_guard.Cache.Files.{Files, IsLawful}
use schema_guard.Cache.Entry.{Directory, transaction_files}
use schema_guard.Cache.Entry.Build.{cache_key_lem}
use schema_guard.Cache.Store.{
  Store, moved, validate_entry, read_validated, load_payload, publish_bytes, quarantine_invalid,
  disk_states,
}
use schema_guard.Cache.Store.RoundTrip.{
  publish_bytes-load_payload, publish_bytes_lem, load_payload-stored,
}
use schema_guard.Cache.Store.Immutable.{StoreOp, run_store_ops, NoCollision}
use schema_guard.Cache.Store.Conflicts.{quarantine_invalid_lem}

module _ {B : Type 0} (files : Files B) (lawful : IsLawful files) (h : Digest)
    (hex : (v : Json) → is_sha256 (h v) ≡ true) (now : ℕ) (identity : CacheIdentity)
    (task_identity : String) (payload : B) (valid : identity_is_valid identity ≡ true)
    (named : is_sha256 task_identity ≡ true) (s : Store B) where
  -- With lawful files and digests, an entry that does not validate for a valid identity is moved
  -- aside as it is, its place is then a miss, and a publication under the identity with a move
  -- that succeeds is what is loaded after any later operations on the store that put no entry
  -- aside for another identity of its key.
  pub quarantine_invalid-publish_bytes :
      (unique : String) (d : Directory B) (e : Error) (ops : List (StoreOp B))
      → lookup (cache_key h identity) s.entries ≡ some d
      → validate_entry files h identity d ≡ err e
      → All (NoCollision files h identity) ops
      → let name = (cache_key h identity +text "-") +text unique in
        let (aside, s') = quarantine_invalid files h unique identity s in
        (aside ≡ ok (some name))
        × (s'.quarantine ≡ s.quarantine ++ (name, d) ∷ [])
        × (read_validated files h identity s' ≡ ok none)
        × (load_payload files h identity (
              run_store_ops files h ops
                (publish_bytes files h now moved identity payload task_identity s').1)
            ≡ ok payload)
  unfolding read_validated
  quarantine_invalid-publish_bytes unique d e ops there invalid apart =
      let key = cache_key h identity in
      let good = cache_key_lem files lawful h hex now identity task_identity payload valid named in
      let free : lookup key (remove key s.entries) ≡ none =
        rw (lookup-remove key key s.entries) (rw (eq_refl key) refl) in
      let name = (key +text "-") +text unique in
      let s' : Store B = record s {
        entries = remove key s.entries;
        quarantine = s.quarantine ++ (name, d) ∷ [];
      } in
      rw (quarantine_invalid_lem files h unique identity s d e good there invalid) (
        refl,
        refl,
        rw good (rw free refl),
        (publish_bytes-load_payload files lawful h hex now identity task_identity payload valid
            named s' ops free apart).2,
      )

  -- With lawful files and digests, whenever the publication of a payload under a valid identity
  -- into a free place is killed, either its entry is still missing and no entry has changed, or
  -- the store is the one that the publication leaves when it is not killed and its payload can be
  -- loaded.
  pub disk_states-read :
      lookup (cache_key h identity) s.entries ≡ none
      → All
          (λ s'.
            ((read_validated files h identity s' ≡ ok none) × (s'.entries ≡ s.entries))
            ⊎ ((load_payload files h identity s' ≡ ok payload)
                × (s' ≡ (publish_bytes files h now moved identity payload task_identity s).1)))
          (disk_states files h now identity task_identity payload s)
  unfolding disk_states transaction_files read_validated
  disk_states-read free =
      let good = cache_key_lem files lawful h hex now identity task_identity payload valid named in
      let miss : read_validated files h identity s ≡ ok none = rw good (rw free refl) in
      let done =
        ap (λ r. r.1)
          (sym (
            publish_bytes_lem files lawful h hex now identity task_identity payload valid named s
              free)) in
      let whole =
        load_payload-stored files lawful h hex now identity task_identity payload valid named s in
      (
        inl (miss, refl),
        (inl (miss, refl), (inl (miss, refl), (inl (miss, refl), (inr (whole, done), tt)))),
      )
