-- ===== src/Tests/IndexRuns.antt =====
-- The discovery of entries and the rebuilt index on a store with one entry.
use schema_guard.Base.{◌≡◌, ◌↔◌, some, In, ok, [], refl}
use schema_guard.Base.Dict.{Dict, lookup}
use schema_guard.Cache.Identity.{CacheIdentity, cache_key}
use schema_guard.Cache.Entry.{CacheArtifact}
use schema_guard.Cache.Store.{read_validated}
use schema_guard.Cache.Scan.{iter_validated}
use schema_guard.Cache.Scan.Exact.{iter_validated_exact}
use schema_guard.Cache.Index.{CacheIndexRecord, corrupt, table, values, rebuild, upsert_all}
use schema_guard.Cache.Index.Rebuild.{rebuild_exact}
use schema_guard.Tests.Samples.{sample_digest, sample_identity}
use schema_guard.Tests.StoreRuns.{sample_files, sample_artifact, sample_store, sample_id_lem}

iter_validated_exact_example :
    In sample_artifact (iter_validated sample_files sample_digest sample_store) ↔ (
      (identity : CacheIdentity) × (read_validated sample_files sample_digest identity sample_store
        ≡ ok (some sample_artifact)))
iter_validated_exact_example =
    iter_validated_exact sample_files sample_digest sample_store sample_artifact
      (λ v. sample_id_lem)

abbrev rebuilt_rows : Dict CacheIndexRecord
rebuilt_rows = upsert_all 9 (iter_validated sample_files sample_digest sample_store) []

rebuilt : (rebuild sample_files sample_digest 9 sample_store corrupt).1 ≡ table rebuilt_rows
unfolding rebuild
rebuilt = refl

rebuild_exact_example :
    (lookup (cache_key sample_digest sample_identity) rebuilt_rows
      ≡ some (values 9 sample_artifact))
    ↔ ((identity : CacheIdentity) × (a : CacheArtifact) × (cache_key sample_digest identity
          ≡ cache_key sample_digest sample_identity)
        × (read_validated sample_files sample_digest identity sample_store ≡ ok (some a))
        × (values 9 sample_artifact ≡ values 9 a))
rebuild_exact_example =
    rebuild_exact sample_files sample_digest (λ v. sample_id_lem) 9 sample_store corrupt
      rebuilt_rows (cache_key sample_digest sample_identity) (values 9 sample_artifact) rebuilt
