-- ===== src/Cache/Store/Published.antt =====
-- cache/store.py: what a publication returns is what is read after it.
use schema_guard.Base.{
  ◌≡◌, refl, ap, ◌∙◌, inl, inr, ℕ, String, true, Option, none, some, ◌&&◌, ok, err, arith,
  Bool-cases, Option-cases, Result-cases, >>=-eq-ok, eq_refl,
}
use schema_guard.Base.Dict.{lookup, insert, lookup-insert}
use schema_guard.Hashing.{Digest}
use schema_guard.Cache.Identity.{CacheIdentity, is_sha256, cache_key}
use schema_guard.Cache.Files.{Files}
use schema_guard.Cache.Entry.{CacheArtifact, Directory, entry_path, build_transaction}
use schema_guard.Cache.Store.{
  Store, Source, Replace, moved, refused, lost_to, PublishResult, validate_entry, read_validated,
  same_payload, reuse, install, publish_stream, publish_file,
}
use schema_guard.Cache.Store.Reads.{read_validated_lem}

module _ {B : Type 0} (files : Files B) (h : Digest) where
  reuse-artifact :
      (hash : String) (size : ℕ) (a : CacheArtifact) (p : PublishResult)
      → reuse files h hash size a ≡ ok p
      → a ≡ p.artifact
  unfolding reuse
  reuse-artifact hash size a p e = elim (Bool-cases (same_payload files h a hash size)) [
    | inl same ↦ ground arith
    | inr other ↦ ground arith
  ]

  -- The read of an entry that was put in place.
  read_validated-insert :
      (identity : CacheIdentity) (d : Directory B) (s : Store B) (a : CacheArtifact)
      → is_sha256 (cache_key h identity) ≡ true
      → validate_entry files h identity d ≡ ok a
      → read_validated files h identity
          (record s { entries = insert (cache_key h identity) d s.entries })
        ≡ ok (some a)
  read_validated-insert identity d s a good valid =
      read_validated_lem files h identity
        (record s { entries = insert (cache_key h identity) d s.entries }) a d good
        (rw (lookup-insert (cache_key h identity) (cache_key h identity) d s.entries)
          (rw (eq_refl (cache_key h identity)) refl))
        valid

  install-read_validated :
      (replace : Replace B) (identity : CacheIdentity) (hash : String) (size : ℕ) (d : Directory B)
      (s : Store B) (p : PublishResult)
      → is_sha256 (cache_key h identity) ≡ true
      → (install files h replace identity hash size d s).0 ≡ ok p
      → read_validated files h identity (install files h replace identity hash size d s).1
        ≡ ok (some p.artifact)
  unfolding install
  install-read_validated moved identity hash size d s p good e =
      let (a, valid, made) = >>=-eq-ok (validate_entry files h identity d) _ e in
      let same : a ≡ p.artifact = ap (λ r. elim r [ ok q ↦ q.artifact | err x ↦ a ]) made in
      read_validated-insert identity d s p.artifact good (valid ∙ ap ok same)
  install-read_validated refused identity hash size d s p good e = cc
  install-read_validated (lost_to winner) identity hash size d s p good e =
      let (a, valid, made) = >>=-eq-ok (validate_entry files h identity winner) _ e in
      read_validated-insert identity winner s p.artifact good
        (valid ∙ ap ok (reuse-artifact hash size a p made))

  -- An artifact that a publication returned, new or reused, is what a validated read returns
  -- from the store that the publication leaves.
  pub publish_stream-read_validated :
      (now : ℕ) (replace : Replace B) (identity : CacheIdentity) (task_identity : String)
      (payload : B) (hash : String) (size : ℕ) (s : Store B) (p : PublishResult)
      → (publish_stream files h now replace identity task_identity payload hash size s).0 ≡ ok p
      → read_validated files h identity
          (publish_stream files h now replace identity task_identity payload hash size s).1
        ≡ ok (some p.artifact)
  unfolding publish_stream
  publish_stream-read_validated now replace identity task_identity payload hash size s p e =
      let key = cache_key h identity in
      elim (Bool-cases (is_sha256 task_identity && is_sha256 key)) [
        | inr bad ↦ absurd (ground arith)
        | inl good ↦
            let keyed : is_sha256 key ≡ true = ground arith in
            elim (Option-cases (lookup key s.entries)) [
              | inr (d, there) ↦
                  let (a, valid, made) =
                    >>=-eq-ok (validate_entry files h identity d) _ (rw there at (rw good at e)) in
                  rw good (
                    rw there (
                      read_validated_lem files h identity s p.artifact d keyed there
                        (valid ∙ ap ok (reuse-artifact hash size a p made))))
              | inl free ↦
                  elim (Result-cases (
                    build_transaction files h now (entry_path key) key identity task_identity
                      payload hash size)) [
                        | inr (x, failed) ↦ absurd (ground arith)
                        | inl (d, built) ↦ rw good (
                            rw free (
                              rw built (
                                install-read_validated replace identity hash size d s p keyed
                                  (rw built at (rw free at (rw good at e))))))
                      ]
            ]
      ]

  pub publish_file-read_validated :
      (now : ℕ) (replace : Replace B) (identity : CacheIdentity) (source : Option (Source B))
      (task_identity : String) (s : Store B) (p : PublishResult)
      → (publish_file files h now replace identity source task_identity s).0 ≡ ok p
      → read_validated files h identity
          (publish_file files h now replace identity source task_identity s).1
        ≡ ok (some p.artifact)
  unfolding publish_file
  publish_file-read_validated now replace identity none task_identity s p e = cc
  publish_file-read_validated now replace identity (some source) task_identity s p e =
      publish_stream-read_validated now replace identity task_identity source.copied _ _ s p e
