-- ===== src/Cache/Scan.antt =====
-- cache/store.py: `iter_validated`, the discovery of the valid entries.
pub mod Exact
use schema_guard.Base.{
  String, Bool, true, false, ◌&&◌, ◌||◌, Option, none, some, List, [], ◌∷◌, ◌==◌, eqb, length, all,
  codes, is_hex, first_chars, if◌then◌else◌, Result, ok, err, ◌>>=◌, ◌>>◌,
}
use schema_guard.Base.Dict.{lookup, keys}
use schema_guard.Hashing.{Digest, text_le}
use schema_guard.Cache.Files.{Files}
use schema_guard.Cache.Manifest.{manifest_is_valid}
use schema_guard.Cache.Entry.{
  Directory, CacheArtifact, entry_path, manifest_name, open_file, found, validated,
  validate_directory,
}
use schema_guard.Cache.Store.{Store}

-- `sorted(..., key=lambda item: item.name)`
unfoldable pub insert_name : String → List String → List String
insert_name k [] = k ∷ []
insert_name k (j ∷ js) = let rest = insert_name k js in if text_le k j then k ∷ j ∷ js else j ∷ rest

unfoldable pub sort_names : List String → List String
sort_names [] = []
sort_names (k ∷ ks) = insert_name k (sort_names ks)

-- The two tests on the names of a prefix directory and of an entry directory in it.
unfoldable pub is_entry_name : String → Bool
is_entry_name name = eqb (length (codes name)) 64 && all is_hex (codes (first_chars 2 name))

-- The value of a call whose exceptions are caught and skipped.
abbrev pub caught {ℓ} : {A : Type ℓ} → Result A → Option A
caught (err e) = none
caught (ok a) = some a

module _ {B : Type 0} (files : Files B) (h : Digest) where
  -- One directory: its own manifest says which identity it is validated for.
  unfoldable pub discover : String → Directory B → Result CacheArtifact
  discover name d = do
    manifest_file ← found (open_file manifest_name d)
    manifest ← found (files.parse_manifest manifest_file)
    validated (manifest_is_valid h manifest)
    validate_directory files h (entry_path name) name d manifest.cache_key manifest.identity false

  unfoldable pub discover_named : Store B → String → Option CacheArtifact
  discover_named s name =
      if is_entry_name name
      then elim (lookup name s.entries) [ none ↦ none | some d ↦ caught (discover name d) ]
      else none

  unfoldable pub discover_all : Store B → List String → List CacheArtifact
  discover_all s [] = []
  discover_all s (name ∷ names) =
      let rest = discover_all s names in
      elim (discover_named s name) [ none ↦ rest | some a ↦ a ∷ rest ]

  unfoldable pub iter_validated : Store B → List CacheArtifact
  iter_validated s = discover_all s (sort_names (keys s.entries))
