-- ===== src/Cache/Index.antt =====
-- cache/index.py: `CacheIndex`. Its SQLite file is the state; a transaction is one step.
pub mod Rebuild
use Prim.Native.String.{◌++◌ as ◌+text◌}
use schema_guard.Base.{
  ℕ, String, Bool, true, ◌&&◌, Option, none, some, List, [], ◌∷◌, ◌==◌, length, optionally,
  if◌then◌else◌, Result, ok, err, database_error,
}
use schema_guard.Base.Dict.{Dict, insert}
use schema_guard.Hashing.{Digest, text_le}
use schema_guard.Cache.Files.{Files}
use schema_guard.Cache.Identity.{artifact_kind_text}
use schema_guard.Cache.Manifest.{Timestamp, utc_now}
use schema_guard.Cache.Entry.{CacheArtifact}
use schema_guard.Cache.Store.{Store}
use schema_guard.Cache.Scan.{iter_validated}

pub record CacheIndexRecord : Type 0 where
  pub cache_key : String
  pub artifact_kind : String
  pub task_identity : String
  pub status : String
  pub payload_path : String
  pub manifest_path : String
  pub payload_sha256 : String
  pub payload_size_bytes : ℕ
  pub created_at : Timestamp
  pub validated_at : Timestamp
  pub source_implementation_sha256 : String

-- The index file: not there, not a database, or the table by its primary key.
pub data IndexFile : Type 0 where
  absent : IndexFile
  corrupt : IndexFile
  table : Dict CacheIndexRecord → IndexFile

-- `_values`; the paths of an artifact start at the root of the cache already.
unfoldable pub values : ℕ → CacheArtifact → CacheIndexRecord
values now artifact = record {
  cache_key = artifact.cache_key;
  artifact_kind = artifact_kind_text artifact.artifact_kind;
  task_identity = artifact.producing_task_identity;
  status = "COMPLETE";
  payload_path = artifact.payload_path;
  manifest_path = artifact.manifest_path;
  payload_sha256 = artifact.payload_sha256;
  payload_size_bytes = artifact.payload_size_bytes;
  created_at = artifact.created_at;
  validated_at = utc_now now;
  source_implementation_sha256 = artifact.source_implementation_sha256;
}

-- `_upsert_sql`
unfoldable pub upsert : ℕ → CacheArtifact → Dict CacheIndexRecord → Dict CacheIndexRecord
upsert now artifact = insert artifact.cache_key (values now artifact)

unfoldable pub upsert_all : ℕ → List CacheArtifact → Dict CacheIndexRecord → Dict CacheIndexRecord
upsert_all now [] rows = rows
upsert_all now (a ∷ more) rows = upsert_all now more (upsert now a rows)

-- `add`: a file that is no database raises.
unfoldable pub add : ℕ → CacheArtifact → IndexFile → Result (Unit {0}) × IndexFile
add now artifact absent = (ok tt, table (upsert now artifact []))
add now artifact corrupt = (err database_error, corrupt)
add now artifact (table rows) = (ok tt, table (upsert now artifact rows))

-- The rows of a query, in the order of their keys.
unfoldable pub insert_row : CacheIndexRecord → List CacheIndexRecord → List CacheIndexRecord
insert_row r [] = r ∷ []
insert_row r (q ∷ qs) =
    let rest = insert_row r qs in if text_le r.cache_key q.cache_key then r ∷ q ∷ qs else q ∷ rest

-- The optional arguments of `lookup`.
pub record Filters : Type 0 where
  pub cache_key : Option String
  pub artifact_kind : Option String
  pub task_identity : Option String
  pub status : Option String

unfoldable pub row_matches : Filters → CacheIndexRecord → Bool
row_matches f r =
    optionally (λ v. r.cache_key == v) f.cache_key
    && optionally (λ v. r.artifact_kind == v) f.artifact_kind
    && optionally (λ v. r.task_identity == v) f.task_identity
    && optionally (λ v. r.status == v) f.status

unfoldable pub select : Filters → Dict CacheIndexRecord → List CacheIndexRecord
select f [] = []
select f ((k, r) ∷ rows) =
    let rest = select f rows in if row_matches f r then insert_row r rest else rest

unfoldable pub lookup_rows : Filters → IndexFile → List CacheIndexRecord
lookup_rows f absent = []
lookup_rows f corrupt = []
lookup_rows f (table rows) = select f rows

-- `rebuild`: a corrupt file is put aside, and the old rows are deleted in any case.
unfoldable pub rebuild : {B : Type 0} → Files B → Digest → ℕ → Store B → IndexFile → ℕ × IndexFile
rebuild files h now s old =
    let entries = iter_validated files h s in (length entries, table (upsert_all now entries []))
