-- ===== src/Cache/Store/Immutable.antt =====
-- cache/store.py: a valid entry is never changed, whatever is published or put aside later.
use schema_guard.Base.{
  ◌&&◌, ◌≡◌, sym, subst, ◌∙◌, inl, inr, ℕ, String, Option, none, some, List, [], ◌∷◌, All, ok, ◌==◌,
  eq_iff, Bool-cases, Option-cases, Result-cases, some-injective, ok-ne-err,
}
use schema_guard.Base.Dict.{lookup, insert, lookup-insert, lookup-remove}
use schema_guard.Hashing.{Digest}
use schema_guard.Cache.Identity.{CacheIdentity, is_sha256, cache_key}
use schema_guard.Cache.Files.{Files}
use schema_guard.Cache.Entry.{Directory, CacheArtifact, entry_path, build_transaction}
use schema_guard.Cache.Store.{
  Store, Source, Replace, moved, refused, lost_to, validate_entry, publish_stream, publish_bytes,
  publish_file, install, quarantine_invalid,
}

-- One call of a method that changes the store, with what it meets outside.
pub data StoreOp (B : Type 0) : Type 0 where
  put_bytes : ℕ → Replace B → CacheIdentity → B → String → StoreOp B
  put_file : ℕ → Replace B → CacheIdentity → Option (Source B) → String → StoreOp B
  put_aside : String → CacheIdentity → StoreOp B

module _ {B : Type 0} (files : Files B) (h : Digest) where
  unfoldable pub run_store_op : StoreOp B → Store B → Store B
  run_store_op (put_bytes now replace identity payload task_identity) s =
      (publish_bytes files h now replace identity payload task_identity s).1
  run_store_op (put_file now replace identity source task_identity) s =
      (publish_file files h now replace identity source task_identity s).1
  run_store_op (put_aside unique identity) s = (quarantine_invalid files h unique identity s).1

  unfoldable pub run_store_ops : List (StoreOp B) → Store B → Store B
  run_store_ops [] s = s
  run_store_ops (op ∷ ops) s = run_store_ops ops (run_store_op op s)

  -- A place that is taken keeps its directory when another place is filled.
  lookup-insert_free :
      (k j : String) (d : Directory B) (v : Directory B) (s : Store B)
      → lookup j s.entries ≡ some d
      → lookup k s.entries ≡ none
      → lookup j (insert k v s.entries) ≡ some d
  lookup-insert_free k j d v s taken free =
      rw (lookup-insert k j v s.entries) (elim (Bool-cases (k == j)) [
        | inl same ↦ let e = (eq_iff k j).0 same in absurd (cc)
        | inr other ↦ rw other taken
      ])

  install-keeps :
      (replace : Replace B) (identity : CacheIdentity) (hash : String) (size : ℕ) (v : Directory B)
      (s : Store B) (j : String) (d : Directory B)
      → lookup j s.entries ≡ some d
      → lookup (cache_key h identity) s.entries ≡ none
      → lookup j (install files h replace identity hash size v s).1.entries ≡ some d
  unfolding install
  install-keeps moved identity hash size v s j d taken free =
      lookup-insert_free (cache_key h identity) j d v s taken free
  install-keeps refused identity hash size v s j d taken free = taken
  install-keeps (lost_to winner) identity hash size v s j d taken free =
      lookup-insert_free (cache_key h identity) j d winner s taken free

  -- A publication changes no entry that is there.
  pub publish_stream-keeps :
      (now : ℕ) (replace : Replace B) (identity : CacheIdentity) (task_identity : String)
      (payload : B) (hash : String) (size : ℕ) (s : Store B) (j : String) (d : Directory B)
      → lookup j s.entries ≡ some d
      → lookup j
          (publish_stream files h now replace identity task_identity payload hash size s).1.entries
        ≡ some d
  unfolding publish_stream
  publish_stream-keeps now replace identity task_identity payload hash size s j d taken =
      let key = cache_key h identity in
      elim (Bool-cases (is_sha256 task_identity && is_sha256 key)) [
        | inr bad ↦ rw bad taken
        | inl good ↦ rw good (elim (Option-cases (lookup key s.entries)) [
          | inr (v, there) ↦ rw there taken
          | inl free ↦
              rw free
                (elim (Result-cases (
                  build_transaction files h now (entry_path key) key identity task_identity payload
                    hash size)) [
                      | inl (v, built) ↦
                          rw built (install-keeps replace identity hash size v s j d taken free)
                      | inr (e, failed) ↦ rw failed taken
                    ])
        ])
      ]

  -- What is at a key other than the one put aside stays, and so does a valid entry.
  pub quarantine_invalid-keeps :
      (unique : String) (identity : CacheIdentity) (s : Store B) (j : String) (d : Directory B)
      → lookup j s.entries ≡ some d
      → (cache_key h identity ≡ j
          → (a : CacheArtifact) × (validate_entry files h identity d ≡ ok a))
      → lookup j (quarantine_invalid files h unique identity s).1.entries ≡ some d
  unfolding quarantine_invalid
  quarantine_invalid-keeps unique identity s j d taken held =
      let key = cache_key h identity in
      elim (Bool-cases (is_sha256 key)) [
        | inr bad ↦ rw bad taken
        | inl good ↦ rw good (elim (Option-cases (lookup key s.entries)) [
          | inl free ↦ rw free taken
          | inr (v, there) ↦ rw there (elim (Result-cases (validate_entry files h identity v)) [
            | inl (a, valid) ↦ rw valid taken
            | inr (e, invalid) ↦ rw invalid (
                rw (lookup-remove key j s.entries) (elim (Bool-cases (key == j)) [
                  | inr other ↦ rw other taken
                  | inl same ↦
                      let at_j : key ≡ j = (eq_iff key j).0 same in
                      let (a, valid) = held at_j in
                      let here : lookup key s.entries ≡ some d =
                        subst (λ k. lookup k s.entries ≡ some d) (sym at_j) taken in
                      let v_is_d : v ≡ d = some-injective (sym there ∙ here) in
                      let valid' : validate_entry files h identity v ≡ ok a =
                        subst (λ x. validate_entry files h identity x ≡ ok a) (sym v_is_d) valid in
                      absurd (ok-ne-err (sym valid' ∙ invalid))
                ]))
          ])
        ])
      ]

  -- An entry is put aside only by a request for an identity with another key, or for the same
  -- identity: no two identities share a key.
  abbrev pub NoCollision : CacheIdentity → StoreOp B → Type 0
  NoCollision identity (put_bytes now replace i payload task_identity) = Unit
  NoCollision identity (put_file now replace i source task_identity) = Unit
  NoCollision identity (put_aside unique i) = cache_key h i ≡ cache_key h identity → i ≡ identity

  module _ (identity : CacheIdentity) (d : Directory B) (a : CacheArtifact)
      (valid : validate_entry files h identity d ≡ ok a) where
    run_store_op-keeps :
        (op : StoreOp B) (s : Store B)
        → NoCollision identity op
        → lookup (cache_key h identity) s.entries ≡ some d
        → lookup (cache_key h identity) (run_store_op op s).entries ≡ some d
    unfolding run_store_op publish_bytes publish_file
    run_store_op-keeps (put_bytes now replace i payload task_identity) s apart there =
        publish_stream-keeps now replace i task_identity payload _ _ s _ d there
    run_store_op-keeps (put_file now replace i none task_identity) s apart there = there
    run_store_op-keeps (put_file now replace i (some source) task_identity) s apart there =
        publish_stream-keeps now replace i task_identity source.copied _ _ s _ d there
    run_store_op-keeps (put_aside unique i) s apart there =
        quarantine_invalid-keeps unique i s _ d there
          (λ same. (a, subst (λ x. validate_entry files h x d ≡ ok a) (sym (apart same)) valid))

    pub run_store_ops-keeps :
        (ops : List (StoreOp B)) (s : Store B)
        → All (NoCollision identity) ops
        → lookup (cache_key h identity) s.entries ≡ some d
        → lookup (cache_key h identity) (run_store_ops ops s).entries ≡ some d
    unfolding run_store_ops
    run_store_ops-keeps [] s apart there = there
    run_store_ops-keeps (op ∷ ops) s apart there =
        run_store_ops-keeps ops (run_store_op op s) apart.1 (run_store_op-keeps op s apart.0 there)
