-- ===== src/Cache/Scan/Exact.antt =====
-- cache/store.py: discovery finds the entries that a request would validate, and no others.
use schema_guard.Base.{
  ℕ, zero, suc, ◌≡◌, ◌↔◌, refl, sym, ap, subst, ◌∙◌, inl, inr, String, true, false, ◌||◌, none,
  some, List, [], ◌∷◌, ◌==◌, all, codes, is_hex, is_hex_text, first_chars, ok, arith, Bool-cases,
  Option-cases, Result-cases, In, In-cons, here, there, eq_iff,
}
use schema_guard.Base.Dict.{Dict, lookup, keys, contains}
use schema_guard.Hashing.{Json, sha256_canonical_json, Digest}
use schema_guard.Cache.Identity.{CacheIdentity, cache_key, is_sha256}
use schema_guard.Cache.Files.{Files}
use schema_guard.Cache.Manifest.{manifest_is_valid}
use schema_guard.Cache.Entry.{
  Directory, CacheArtifact, entry_path, manifest_name, open_file, validate_directory,
}
use schema_guard.Cache.Entry.Checks.{
  Checks-of_ok, entry_matches-Agree, entry_matches-cache_key, found-eq-ok, validated-eq-ok,
}
use schema_guard.Cache.Store.{Store, validate_entry, read_validated}
use schema_guard.Cache.Store.Reads.{read_validated-eq-some, read_validated_lem}
use schema_guard.Cache.Scan.{
  insert_name, sort_names, is_entry_name, discover, discover_named, discover_all, iter_validated,
}

contains-insert_name :
    (k j : String) (ks : List String) → contains k (insert_name j ks) ≡ (j == k || contains k ks)
unfolding contains insert_name
contains-insert_name k j [] = refl
contains-insert_name k j (i ∷ ks) = ground (arith, contains-insert_name k j ks)

pub contains-sort_names :
    (k : String) (ks : List String) → contains k (sort_names ks) ≡ contains k ks
unfolding contains sort_names
contains-sort_names k [] = refl
contains-sort_names k (j ∷ ks) =
    ground (arith, contains-insert_name k j (sort_names ks), contains-sort_names k ks)

pub contains-keys :
    {V : Type 0} (k : String) (d : Dict V) (v : V)
    → lookup k d ≡ some v
    → contains k (keys d) ≡ true
unfolding contains lookup
contains-keys k [] v e = cc
contains-keys k ((j, w) ∷ d) v e = ground (arith, contains-keys k d v)

all-first_chars :
    (n : ℕ) (s : String) → all is_hex (codes s) ≡ true → all is_hex (codes (first_chars n s)) ≡ true
unfolding first_chars
all-first_chars zero s e = refl
all-first_chars (suc n) String.[] e = refl
all-first_chars (suc n) (String.◌∷◌ c s) e = ground (arith, all-first_chars n s)

key_is_sha256 :
    (h : Digest)
    → ((v : Json) → is_sha256 (h v) ≡ true)
    → (identity : CacheIdentity) → is_sha256 (cache_key h identity) ≡ true
unfolding cache_key sha256_canonical_json
key_is_sha256 h hex identity = hex _

module _ {B : Type 0} (files : Files B) (h : Digest) where
  -- What a request for an identity validates is discovered under its key.
  discover_of_validate_entry :
      (identity : CacheIdentity) (d : Directory B) (a : CacheArtifact)
      → validate_entry files h identity d ≡ ok a
      → discover files h (cache_key h identity) d ≡ ok a
  unfolding discover validate_entry
  discover_of_validate_entry identity d a e =
      let c = Checks-of_ok files h _ _ d _ identity false e in
      let agree =
        entry_matches-Agree files h _ _ identity c.payload c.manifest_file c.manifest c.marker false
          c.agree in
      rw c.has_manifest (rw c.parses (rw c.manifest_valid (rw agree.keyed (rw agree.own e))))

  -- What is discovered under a name is what a request for its manifest's identity validates.
  pub discover-validate_entry :
      (name : String) (d : Directory B) (a : CacheArtifact)
      → discover files h name d ≡ ok a
      → (identity : CacheIdentity) × (cache_key h identity ≡ name)
        × (validate_entry files h identity d ≡ ok a)
  unfolding discover validate_entry
  discover-validate_entry name d a e =
      let (manifest_file, has_manifest, e1) = found-eq-ok (open_file manifest_name d) _ e in
      let (manifest, parses, e2) = found-eq-ok (files.parse_manifest manifest_file) _ e1 in
      let (manifest_valid, e3) = validated-eq-ok (manifest_is_valid h manifest) _ e2 in
      let c =
        Checks-of_ok files h (entry_path name) name d manifest.cache_key manifest.identity false
          e3 in
      let (at_name, at_key) =
        entry_matches-cache_key files h name manifest.cache_key manifest.identity c.payload
          c.manifest_file c.manifest c.marker c.agree in
      let same : cache_key h manifest.identity ≡ name = at_key ∙ sym at_name in
      let checked : validate_directory files h (entry_path name) name d name manifest.identity false
          ≡ ok a =
        subst
          (λ k.
            validate_directory files h (entry_path name) name d k manifest.identity false ≡ ok a)
          (sym at_name) e3 in
      (manifest.identity, same, rw same checked)

  -- Under the key of an identity, discovery and a validated read agree.
  pub discover_named_lem :
      (identity : CacheIdentity) (s : Store B) (a : CacheArtifact)
      → read_validated files h identity s ≡ ok (some a)
      → discover_named files h s (cache_key h identity) ≡ some a
  unfolding discover_named is_entry_name is_sha256 is_hex_text
  discover_named_lem identity s a e =
      let (d, good, present, valid) = read_validated-eq-some files h identity s a e in
      let entry_name : is_entry_name (cache_key h identity) ≡ true =
        ground (arith, all-first_chars 2 (cache_key h identity)) in
      rw entry_name (rw present (rw (discover_of_validate_entry identity d a valid) refl))

  pub discover_named-read_validated :
      (s : Store B) (name : String) (a : CacheArtifact)
      → ((v : Json) → is_sha256 (h v) ≡ true)
      → discover_named files h s name ≡ some a
      → (identity : CacheIdentity) × (cache_key h identity ≡ name)
        × (read_validated files h identity s ≡ ok (some a))
  unfolding discover_named
  discover_named-read_validated s name a hex e = elim (Bool-cases (is_entry_name name)) [
    | inr bad ↦ ground arith
    | inl good ↦ elim (Option-cases (lookup name s.entries)) [
      | inl free ↦ ground arith
      | inr (d, present) ↦ elim (Result-cases (discover files h name d)) [
        | inr (x, failed) ↦ ground arith
        | inl (b, found_there) ↦
            let same : b ≡ a = ground arith in
            let (identity, at_name, valid) = discover-validate_entry name d b found_there in
            (
              identity,
              at_name,
              read_validated_lem files h identity s a d (key_is_sha256 h hex identity)
                  (subst (λ k. lookup k s.entries ≡ some d) (sym at_name) present)
                  (valid ∙ ap ok same),
            )
      ]
    ]
  ]

  pub discover_all-none :
      (s : Store B) (name : String) (names : List String)
      → discover_named files h s name ≡ none
      → discover_all files h s (name ∷ names) ≡ discover_all files h s names
  unfolding discover_all
  discover_all-none s name names e = ground arith

  pub discover_all-some :
      (s : Store B) (name : String) (names : List String) (a : CacheArtifact)
      → discover_named files h s name ≡ some a
      → discover_all files h s (name ∷ names) ≡ a ∷ discover_all files h s names
  unfolding discover_all
  discover_all-some s name names a e = ground arith

  discover_all-In :
      (s : Store B) (names : List String) (k : String) (a : CacheArtifact)
      → contains k names ≡ true
      → discover_named files h s k ≡ some a
      → In a (discover_all files h s names)
  unfolding contains
  discover_all-In s [] k a e f = cc
  discover_all-In s (j ∷ names) k a e f = elim (Bool-cases (j == k)) [
    | inl same ↦
        let at_j : discover_named files h s j ≡ some a =
          subst (λ x. discover_named files h s x ≡ some a) (sym ((eq_iff j k).0 same)) f in
        rw (discover_all-some s j names a at_j) here
    | inr other ↦
        let rest = discover_all-In s names k a (rw other at e) f in
        elim (Option-cases (discover_named files h s j)) [
          | inl missing ↦ rw (discover_all-none s j names missing) rest
          | inr (b, found_there) ↦ rw (discover_all-some s j names b found_there) (there rest)
        ]
  ]

  In-discover_all :
      (s : Store B) (names : List String) (a : CacheArtifact)
      → In a (discover_all files h s names)
      → (k : String) × (discover_named files h s k ≡ some a)
  unfolding discover_all
  In-discover_all s [] a i = elim i [ ]
  In-discover_all s (j ∷ names) a i = elim (Option-cases (discover_named files h s j)) [
    | inl missing ↦ In-discover_all s names a (rw (discover_all-none s j names missing) at i)
    | inr (b, found_there) ↦ elim (In-cons (rw (discover_all-some s j names b found_there) at i)) [
      | inl same ↦ (j, found_there ∙ ap some (sym same))
      | inr later ↦ In-discover_all s names a later
    ]
  ]

  -- Discovery lists every artifact that a request can validate.
  iter_validated_complete :
      (identity : CacheIdentity) (s : Store B) (a : CacheArtifact)
      → read_validated files h identity s ≡ ok (some a)
      → In a (iter_validated files h s)
  unfolding iter_validated
  iter_validated_complete identity s a e =
      let (d, good, present, valid) = read_validated-eq-some files h identity s a e in
      discover_all-In s (sort_names (keys s.entries)) (cache_key h identity) a
        (contains-sort_names (cache_key h identity) (keys s.entries)
          ∙ contains-keys (cache_key h identity) s.entries d present)
        (discover_named_lem identity s a e)

  -- If digests are SHA-256 texts, discovery lists only artifacts that a request for their identity
  -- validates, as it lists them.
  iter_validated_sound :
      (s : Store B) (a : CacheArtifact)
      → ((v : Json) → is_sha256 (h v) ≡ true)
      → In a (iter_validated files h s)
      → (identity : CacheIdentity) × (read_validated files h identity s ≡ ok (some a))
  unfolding iter_validated
  iter_validated_sound s a hex i =
      let (k, named) = In-discover_all s (sort_names (keys s.entries)) a i in
      let (identity, _, e) = discover_named-read_validated s k a hex named in (identity, e)

  -- If digests are SHA-256 texts, discovery lists exactly the artifacts that a request validates.
  pub iter_validated_exact :
      (s : Store B) (a : CacheArtifact)
      → ((v : Json) → is_sha256 (h v) ≡ true)
      → In a (iter_validated files h s)
        ↔ ((identity : CacheIdentity) × (read_validated files h identity s ≡ ok (some a)))
  iter_validated_exact s a hex =
      (iter_validated_sound s a hex, λ (identity, e). iter_validated_complete identity s a e)
