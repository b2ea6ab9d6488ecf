-- ===== src/Pilot/Select.antt =====
-- The selection of eight data sets: `select_candidate_ids` of experiments/pilot_planning.py.
pub mod Best
pub mod Shuffle
use schema_guard.Base.{
  require, same_bool, ℕ, zero, suc, ◌+◌, Bool, true, false, not, ◌&&◌, ◌||◌, if◌then◌else◌, ◌==◌,
  ltb, leb, eqb, all, Option, none, some, List, [], ◌∷◌, ◌++◌, map, length, String, Result, Error,
  ok, err, ◌>>=◌, ◌>>◌,
}
use schema_guard.Base.Dict.{contains}
use schema_guard.Base.Counting.{distinct_count, counter_from, repeats, member}
use schema_guard.Split.Config.{Arithmetic, frozen_seeds, frozen_datasets, same_numbers}
use schema_guard.Split.Select.{precedes}
use schema_guard.Pilot.Metadata.{Candidate, SelectionPolicy, family_of, task_of, duplicate_profile}

abbrev pub model_order : List String
model_order = "LR-1.9" ∷ "CAT-1.2" ∷ "XGB-3.4" ∷ "TPFN3-8.5" ∷ "TICL2-2.2" ∷ []

abbrev pub same_texts : List String → List String → Bool
same_texts [] [] = true
same_texts [] (d ∷ ds) = false
same_texts (c ∷ cs) [] = false
same_texts (c ∷ cs) (d ∷ ds) = c == d && same_texts cs ds

-- `sorted(candidates, key=...)`, which is stable.
unfoldable pub insert_candidate : Candidate → List Candidate → List Candidate
insert_candidate c [] = c ∷ []
insert_candidate c (d ∷ ds) =
    if leb c.dataset_id d.dataset_id then c ∷ d ∷ ds else d ∷ insert_candidate c ds

unfoldable pub sort_candidates : List Candidate → List Candidate
sort_candidates [] = []
sort_candidates (c ∷ cs) = insert_candidate c (sort_candidates cs)

abbrev pub ids : List Candidate → List ℕ
ids = map (λ c. c.dataset_id)

unfoldable pub all_different : List ℕ → Bool
all_different [] = true
all_different (n ∷ ns) = not (member eqb n ns) && all_different ns

abbrev is_registered : ℕ → Bool
is_registered n = member eqb n frozen_datasets

-- Complete source, five grouped splits and the V00 evidence of every model.
unfoldable pub is_eligible : Candidate → Bool
is_eligible c =
    c.source_artifacts_valid
    && same_numbers c.validated_split_seeds frozen_seeds
    && eqb c.cross_partition_group_count 0
    && same_texts c.v00_compatible_model_ids model_order

-- `itertools.combinations(xs, k)`
unfoldable pub combinations {ℓ} : {A : Type ℓ} → ℕ → List A → List (List A)
combinations zero xs = [] ∷ []
combinations (suc k) [] = []
combinations (suc k) (x ∷ xs) = map (◌∷◌ x) (combinations k xs) ++ combinations (suc k) xs

pub record Score : Type 0 where
  pub required_covered : ℕ
  pub strata : ℕ
  pub profile_collisions : ℕ
  pub unique_metadata_signatures : ℕ

abbrev has_tag : String → List Candidate → Bool
has_tag t [] = false
has_tag t (c ∷ cs) = contains t c.coverage_tags || has_tag t cs

-- `len(tags & set(required))` of the tags of the subset.
unfoldable pub covered_count : List String → List Candidate → ℕ
covered_count [] subset = 0
covered_count (t ∷ ts) subset =
    let rest = covered_count ts subset in
    if has_tag t subset && not (contains t ts) then suc rest else rest

abbrev same_pair : String × String → String × String → Bool
same_pair (a, b) (c, d) = a == c && b == d

pub record Signature : Type 0 where
  pub features : ℕ
  pub classes : ℕ
  pub has_missing_cells : Bool
  pub duplicate_groups : ℕ

abbrev same_signature : Signature → Signature → Bool
same_signature s t =
    eqb s.features t.features
    && eqb s.classes t.classes
    && same_bool s.has_missing_cells t.has_missing_cells
    && eqb s.duplicate_groups t.duplicate_groups

abbrev stratum : Candidate → String × String
stratum c = (family_of c, task_of c.class_count)

abbrev signature : Candidate → Signature
signature c = record {
  features = c.feature_count;
  classes = c.class_count;
  has_missing_cells = ltb 0 c.missing_cells;
  duplicate_groups = c.duplicate_group_count;
}

-- A subset with its score and its sorted identifiers.
pub record Scored : Type 0 where
  pub score : Score
  pub candidate_ids : List ℕ

-- `score > best_score`; the collisions count negatively.
unfoldable pub beats : Score → Score → Bool
beats s t =
    ltb t.required_covered s.required_covered
    || eqb t.required_covered s.required_covered
      && (ltb t.strata s.strata
          || eqb t.strata s.strata
            && (ltb s.profile_collisions t.profile_collisions
                || eqb s.profile_collisions t.profile_collisions
                  && ltb t.unique_metadata_signatures s.unique_metadata_signatures))

abbrev pub same_score : Score → Score → Bool
same_score s t =
    eqb s.required_covered t.required_covered
    && eqb s.strata t.strata
    && eqb s.profile_collisions t.profile_collisions
    && eqb s.unique_metadata_signatures t.unique_metadata_signatures

-- The test of the loop.
unfoldable pub improves : Scored → Scored → Bool
improves s t =
    beats s.score t.score || same_score s.score t.score && precedes s.candidate_ids t.candidate_ids

abbrev pub keep_better : Scored → Option Scored → Scored
keep_better s none = s
keep_better s (some best) = if improves s best then s else best

-- `for remainder in ...`
unfoldable pub search_subsets {ℓ} :
    {A : Type ℓ} → (A → Result Scored) → List A → Option Scored → Result (Option Scored)
search_subsets judged [] best = ok best
search_subsets judged (s ∷ ss) best =
    judged s >>= (λ scored. search_subsets judged ss (some (keep_better scored best)))

abbrev pub find_anchor : ℕ → List Candidate → Option Candidate
find_anchor anchor [] = none
find_anchor anchor (c ∷ cs) = if eqb c.dataset_id anchor then some c else find_anchor anchor cs

abbrev pub without_anchor : ℕ → List Candidate → List Candidate
without_anchor anchor [] = []
without_anchor anchor (c ∷ cs) =
    let rest = without_anchor anchor cs in if eqb c.dataset_id anchor then rest else c ∷ rest

module _ (a : Arithmetic) (policy : SelectionPolicy) where
  unfoldable pub profiles : List Candidate → Result (List (List String))
  profiles [] = ok []
  profiles (c ∷ cs) =
      duplicate_profile a c policy >>= (λ p. profiles cs >>= (λ rest. ok (p ∷ rest)))

  -- The score of a subset.
  unfoldable pub score_subset : List Candidate → Result Scored
  score_subset subset = profiles subset >>= (λ ps. ok (record {
    score = record {
      required_covered = covered_count policy.required_coverage subset;
      strata = distinct_count same_pair (map stratum subset);
      profile_collisions = repeats (counter_from same_texts [] ps);
      unique_metadata_signatures = distinct_count same_signature (map signature subset);
    };
    candidate_ids = ids (sort_candidates subset);
  }))

  -- The loop over the seven others that join the anchor.
  unfoldable pub best_subset : Option Candidate → List Candidate → Result (Option Scored)
  best_subset none others = err Error.value_error
  best_subset (some anchor) others =
      search_subsets (λ remainder. score_subset (anchor ∷ remainder)) (combinations 7 others) none

  abbrev pub selected_ids : Option Scored → Result (List ℕ)
  selected_ids none = err Error.value_error
  selected_ids (some best) = ok best.candidate_ids

  unfoldable pub select_candidate_ids : List Candidate → ℕ → Result (List ℕ)
  select_candidate_ids candidates anchor_id =
      let ordered = sort_candidates candidates in
      require (all_different (ids ordered))
      >> require (all is_registered (ids ordered))
      >> require (all is_eligible ordered)
      >> require (member eqb anchor_id (ids ordered))
      >> require (leb 8 (length ordered))
      >> best_subset (find_anchor anchor_id ordered) (without_anchor anchor_id ordered)
      >>= selected_ids
