-- ===== src/Tests/InventoryRuns.antt =====
-- An inventory of eight data sets, three seeds and the identity view alone.
use Prim.Native.String.{◌++◌ as ◌+++◌}
use schema_guard.Base.{
  ℕ, ◌*◌, ◌≤◌, true, if◌then◌else◌, eqb, List, [], ◌∷◌, ◌++◌, map, String, ◌==◌, ◌≡◌, refl, err,
  key_error, is_hex_text,
}
use schema_guard.Base.Dict.{contains, lookup}
use schema_guard.Base.Counting.{member, distinct_count}
use schema_guard.Base.Decimal.{decimal}
use schema_guard.Hashing.{
  int, text, obj, Fields, end, field, Digest, text_le, canonicalize, sha256_canonical_json,
}
use schema_guard.Cache.Identity.{is_sha256}
use schema_guard.Pilot.Select.{model_order}
use schema_guard.Pilot.RelativePath.{components_from, is_plain, has_drive, is_relative_path}
use schema_guard.Pilot.Condition.{
  Device, cpu, cuda, PlannedCondition, NotApplicableConditionTuple, components_are_valid,
  condition_is_valid, canonical_identity_hash, components_json, condition_json, not_applicable_json,
}
use schema_guard.Pilot.Inventory.{
  PilotConditionInventory, count_where, is_ascending, texts_differ, same_counts, keys_differ,
  has_condition, v00_is_complete, counts_are_derived, inventory_json, inventory_is_valid,
}
use schema_guard.Pilot.Inventory.Coverage.{inventory_is_valid-counts}
use schema_guard.Pilot.Schedule.{fill, append_at, empty_buckets}
use schema_guard.Tests.ScheduleRuns.{sha, condition_of}

abbrev concat_map {ℓ κ} : {A : Type ℓ} {B : Type κ} → (A → List B) → List A → List B
concat_map f [] = []
concat_map f (x ∷ xs) = f x ++ concat_map f xs

-- A letter for a data set, a seed and a model.
abbrev dataset_mark : ℕ → String
dataset_mark n =
    if eqb n 3
    then "0"
    else if eqb n 23
    then "1"
    else if eqb n 29
    then "2"
    else if eqb n 31
    then "3"
    else if eqb n 36
    then "4"
    else if eqb n 37
    then "5"
    else if eqb n 38
    then "6"
    else if eqb n 1464
    then "7"
    else "8"

abbrev seed_mark : ℕ → String
seed_mark n = if eqb n 1729 then "0" else if eqb n 2718 then "1" else "2"

abbrev model_mark : String → String
model_mark m =
    if m == "LR-1.9"
    then "0"
    else if m == "CAT-1.2"
    then "1"
    else if m == "XGB-3.4"
    then "2"
    else if m == "TPFN3-8.5"
    then "3"
    else "4"

-- 61 zeros and the three marks.
abbrev id_of : ℕ → ℕ → String → String
id_of dataset seed model =
    "0000000000000000000000000000000000000000000000000000000000000"
    +++ dataset_mark dataset
    +++ seed_mark seed
    +++ model_mark model

number_at : String → Fields → ℕ
number_at k end = 0
number_at k (field j (int n) rest) = if j == k then n else number_at k rest
number_at k (field j _ rest) = number_at k rest

text_at : String → Fields → String
text_at k end = ""
text_at k (field j (text s) rest) = if j == k then s else text_at k rest
text_at k (field j _ rest) = text_at k rest

-- A digest that tells these identities apart.
marks : Digest
marks (obj fs) = id_of (number_at "dataset_id" fs) (number_at "seed" fs) (text_at "model_id" fs)
marks _ = ""

abbrev datasets : List ℕ
datasets = 3 ∷ 23 ∷ 29 ∷ 31 ∷ 36 ∷ 37 ∷ 38 ∷ 1464 ∷ []

abbrev seeds : List ℕ
seeds = 1729 ∷ 2718 ∷ 31415 ∷ []

abbrev device_of : String → Device
device_of m = if m == "TPFN3-8.5" then cuda else if m == "TICL2-2.2" then cuda else cpu

abbrev at_seed : ℕ → PlannedCondition → PlannedCondition
at_seed s c = record c { seed = s; identity = record c.identity { seed = s } }

abbrev planned : List PlannedCondition
planned =
    concat_map
      (λ d.
        concat_map
          (λ s. map (λ m. at_seed s (condition_of (id_of d s m) d m (device_of m))) model_order)
          seeds)
      datasets

abbrev other_views : List String
other_views = "V01" ∷ "V02" ∷ "V03" ∷ "V04" ∷ "V05" ∷ "V06" ∷ "V07" ∷ "V08" ∷ "V09" ∷ "V10" ∷ []

abbrev refused : List NotApplicableConditionTuple
refused =
    concat_map
      (λ d.
        concat_map
          (λ s.
            map
              (λ v. record {
                dataset_id = d;
                seed = s;
                view_id = v;
                reason_code = "NO_COLUMN";
                evidence_sha256 = sha;
                transformation_inventory_record_sha256 = sha;
              })
              other_views)
          seeds)
      datasets

abbrev inventory : PilotConditionInventory
inventory = record {
  protocol_sha256 = sha;
  records = planned;
  not_applicable_views = refused;
  selected_dataset_ids = datasets;
  selected_seeds = seeds;
  actual_view_tuple_count = 264;
  applicable_view_tuple_count = 24;
  not_applicable_view_count = 240;
  actual_condition_count = 120;
  cpu_condition_count = 72;
  cuda_condition_count = 48;
  counts_by_dataset = map (λ d. (decimal d, 15)) datasets;
  counts_by_seed = map (λ s. (decimal s, 40)) seeds;
  counts_by_view = ("V00", 120) ∷ map (λ v. (v, 0)) other_views;
  counts_by_model = map (λ m. (m, 24)) model_order;
  source_hashes = ("configs/pilot.yaml", sha) ∷ [];
  inventory_sha256 = id_of 0 0 "";
}

inventory_runs : inventory_is_valid marks inventory ≡ true
unfolding inventory_is_valid condition_is_valid components_are_valid is_sha256 is_hex_text contains
    canonical_identity_hash sha256_canonical_json canonicalize components_json condition_json
    not_applicable_json text_le texts_differ count_where is_ascending is_relative_path
    components_from is_plain has_drive member v00_is_complete keys_differ has_condition
    distinct_count counts_are_derived same_counts lookup inventory_json marks number_at text_at
    decimal
inventory_runs = refl

inventory_is_valid-counts_example : 5 * 24 ≤ 120
inventory_is_valid-counts_example = inventory_is_valid-counts marks inventory inventory_runs

-- The records of a view of a data set that is not selected, in place of one tuple of the matrix.
abbrev foreign : List PlannedCondition
foreign = map (λ m. in_view (condition_of (id_of 999 1729 m) 999 m (device_of m))) model_order
  where
    in_view : PlannedCondition → PlannedCondition
    in_view c = record c { view_id = "V01"; identity = record c.identity { view_id = "V01" } }

abbrev rest_of {ℓ} : {A : Type ℓ} → List A → List A
rest_of [] = []
rest_of (x ∷ xs) = xs

abbrev incomplete : PilotConditionInventory
incomplete = record inventory {
  records = planned ++ foreign;
  not_applicable_views = rest_of refused;
  applicable_view_tuple_count = 25;
  not_applicable_view_count = 239;
  actual_condition_count = 125;
  cpu_condition_count = 75;
  cuda_condition_count = 50;
  counts_by_seed = ("1729", 45) ∷ ("2718", 40) ∷ ("31415", 40) ∷ [];
  counts_by_view = ("V00", 120) ∷ ("V01", 5) ∷ map (λ v. (v, 0)) (rest_of other_views);
  counts_by_model = map (λ m. (m, 25)) model_order;
}

-- The inventory is accepted although a tuple of the matrix is missing.
incomplete_runs : inventory_is_valid marks incomplete ≡ true
unfolding inventory_is_valid condition_is_valid components_are_valid is_sha256 is_hex_text contains
    canonical_identity_hash sha256_canonical_json canonicalize components_json condition_json
    not_applicable_json text_le texts_differ count_where is_ascending is_relative_path
    components_from is_plain has_drive member v00_is_complete keys_differ has_condition
    distinct_count counts_are_derived same_counts lookup inventory_json marks number_at text_at
    decimal
incomplete_runs = refl

-- The records of the other data set have no place in the dictionary of the schedule.
incomplete_raises : fill incomplete.records (empty_buckets datasets) ≡ err key_error
unfolding fill append_at
incomplete_raises = refl
