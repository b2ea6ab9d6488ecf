-- ===== src/Cache/Index/Rebuild.antt =====
-- cache/index.py: a rebuilt index holds exactly the valid entries of the store.
use schema_guard.Base.{
  ◌≡◌, ◌↔◌, refl, sym, subst, ◌∙◌, inl, inr, ℕ, String, true, Option, none, some, List, [], ◌∷◌,
  if◌then◌else◌, eq_iff, arith, ok, Option-cases,
}
use schema_guard.Base.Dict.{Dict, lookup, lookup-insert, keys, contains}
use schema_guard.Hashing.{Json, Digest}
use schema_guard.Cache.Identity.{CacheIdentity, is_sha256, cache_key}
use schema_guard.Cache.Files.{Files}
use schema_guard.Cache.Entry.{CacheArtifact}
use schema_guard.Cache.Store.{Store, read_validated}
use schema_guard.Cache.Store.Reads.{read_validated-eq-some, read_validated-Certified}
use schema_guard.Cache.Scan.{sort_names, discover_named, discover_all, iter_validated}
use schema_guard.Cache.Scan.Exact.{
  contains-keys, contains-sort_names, discover_named_lem, discover_named-read_validated,
  discover_all-none, discover_all-some,
}
use schema_guard.Cache.Index.{
  CacheIndexRecord, IndexFile, table, values, upsert, upsert_all, rebuild,
}

table-injective : {c d : Dict CacheIndexRecord} → table c ≡ table d → c ≡ d
table-injective e = cc

module _ {B : Type 0} (files : Files B) (h : Digest) (hex : (v : Json) → is_sha256 (h v) ≡ true)
    (now : ℕ) (s : Store B) where
  discover_named-cache_key :
      (name : String) (a : CacheArtifact)
      → discover_named files h s name ≡ some a
      → a.cache_key ≡ name
  discover_named-cache_key name a e =
      let (identity, at_name, read) = discover_named-read_validated files h s name a hex e in
      let (d, payload, there, loaded, certified) =
        read_validated-Certified files h identity s a read in
      certified.artifact_key ∙ at_name

  -- The row of a key once the entries of some names are written over a table.
  abbrev row_after : List String → Dict CacheIndexRecord → String → Option CacheIndexRecord
  row_after names rows k =
      if contains k names
      then elim (discover_named files h s k) [ none ↦ lookup k rows | some a ↦ some (values now a) ]
      else lookup k rows

  lookup-upsert_all :
      (names : List String) (rows : Dict CacheIndexRecord) (k : String)
      → lookup k (upsert_all now (discover_all files h s names) rows) ≡ row_after names rows k
  unfolding upsert_all upsert contains discover_all
  lookup-upsert_all [] rows k = refl
  lookup-upsert_all (j ∷ names) rows k = elim (Option-cases (discover_named files h s j)) [
    | inl missing ↦
        rw (discover_all-none files h s j names missing)
          (ground (arith, lookup-upsert_all names rows k, eq_iff j k, missing))
    | inr (b, found_there) ↦ rw (discover_all-some files h s j names b found_there) (
        ground (
          arith,
          lookup-upsert_all names (upsert now b rows) k,
          eq_iff j k,
          eq_iff b.cache_key k,
          found_there,
          discover_named-cache_key j b found_there,
          lookup-insert b.cache_key k (values now b) rows,
        ))
  ]

  -- If digests are SHA-256 texts, a rebuilt index has the row of every artifact that a request can
  -- validate, whatever the old index was.
  rebuild-indexed :
      (old : IndexFile) (identity : CacheIdentity) (a : CacheArtifact)
      → read_validated files h identity s ≡ ok (some a)
      → (rows : Dict CacheIndexRecord) × ((rebuild files h now s old).1 ≡ table rows)
        × (lookup (cache_key h identity) rows ≡ some (values now a))
  unfolding rebuild iter_validated
  rebuild-indexed old identity a e =
      let key = cache_key h identity in
      let (d, good, there, valid) = read_validated-eq-some files h identity s a e in
      let listed : contains key (sort_names (keys s.entries)) ≡ true =
        contains-sort_names key (keys s.entries) ∙ contains-keys key s.entries d there in
      (
        _,
        refl,
        lookup-upsert_all (sort_names (keys s.entries)) [] key
            ∙ rw listed (rw (discover_named_lem files h identity s a e) refl),
      )

  -- If digests are SHA-256 texts, every row of a rebuilt index is that of an artifact that a
  -- request validates, under the key of the request's identity.
  rebuild_sound :
      (old : IndexFile) (rows : Dict CacheIndexRecord) (k : String) (r : CacheIndexRecord)
      → (rebuild files h now s old).1 ≡ table rows
      → lookup k rows ≡ some r
      → (identity : CacheIdentity) × (a : CacheArtifact) × (cache_key h identity ≡ k)
        × (read_validated files h identity s ≡ ok (some a))
        × (r ≡ values now a)
  unfolding rebuild iter_validated lookup
  rebuild_sound old rows k r built e =
      let names = sort_names (keys s.entries) in
      let e' : row_after names [] k ≡ some r =
        sym (lookup-upsert_all names [] k)
        ∙ subst (λ x. lookup k x ≡ some r) (sym (table-injective built)) e in
      elim (Option-cases (discover_named files h s k)) [
        | inl missing ↦ ground arith
        | inr (a, named) ↦
            let (identity, at_k, read) = discover_named-read_validated files h s k a hex named in
            (identity, a, at_k, read, ground arith)
      ]

  -- If digests are SHA-256 texts, the rows of a rebuilt index are exactly those of the artifacts that
  -- a request validates, each under the key of the request's identity, whatever the old index was.
  pub rebuild_exact :
      (old : IndexFile) (rows : Dict CacheIndexRecord) (k : String) (r : CacheIndexRecord)
      → (rebuild files h now s old).1 ≡ table rows
      → (lookup k rows ≡ some r) ↔ (
          (identity : CacheIdentity) × (a : CacheArtifact) × (cache_key h identity ≡ k)
          × (read_validated files h identity s ≡ ok (some a))
          × (r ≡ values now a))
  rebuild_exact old rows k r built = (
    rebuild_sound old rows k r built,
    λ (identity, a, at_k, read, same).
        let (written, made, there) = rebuild-indexed old identity a read in
        let known : lookup (cache_key h identity) rows ≡ some (values now a) =
          subst (λ x. lookup (cache_key h identity) x ≡ some (values now a))
            (table-injective (sym made ∙ built)) there in
        rw (← at_k, same) known,
  )
