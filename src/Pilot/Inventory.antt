-- ===== src/Pilot/Inventory.antt =====
-- The condition inventory: PilotConditionInventory of experiments/pilot_contracts.py, its fields and
-- `validate_counts`, its model validator.
pub mod Coverage
use schema_guard.Base.{
  ℕ, ◌+◌, ◌*◌, Bool, true, false, not, ◌&&◌, ◌||◌, ltb, leb, eqb, all, none, some, List, [], ◌∷◌,
  map, length, String, ◌==◌, if◌then◌else◌,
}
use schema_guard.Base.Dict.{Dict, contains, lookup}
use schema_guard.Base.Counting.{member, distinct_count}
use schema_guard.Base.Decimal.{decimal}
use schema_guard.Hashing.{
  Json, Items, nil, cons, int, text, arr, Digest, sha256_canonical_json, object,
}
use schema_guard.Cache.Identity.{is_sha256}
use schema_guard.Split.Config.{same_numbers}
use schema_guard.Pilot.Select.{model_order}
use schema_guard.Pilot.RelativePath.{is_relative_path}
use schema_guard.Pilot.Condition.{
  PlannedCondition, NotApplicableConditionTuple, Device, cpu, cuda, same_device, view_order,
  condition_is_valid, not_applicable_is_valid, condition_json, not_applicable_json,
}

pub record PilotConditionInventory : Type 0 where
  pub protocol_sha256 : String
  pub records : List PlannedCondition
  pub not_applicable_views : List NotApplicableConditionTuple
  pub selected_dataset_ids : List ℕ
  pub selected_seeds : List ℕ
  pub actual_view_tuple_count : ℕ
  pub applicable_view_tuple_count : ℕ
  pub not_applicable_view_count : ℕ
  pub actual_condition_count : ℕ
  pub cpu_condition_count : ℕ
  pub cuda_condition_count : ℕ
  pub counts_by_dataset : Dict ℕ
  pub counts_by_seed : Dict ℕ
  pub counts_by_view : Dict ℕ
  pub counts_by_model : Dict ℕ
  pub source_hashes : Dict String
  pub inventory_sha256 : String

-- `sum(test(item) for item in items)`
unfoldable pub count_where {ℓ} : {A : Type ℓ} → (A → Bool) → List A → ℕ
count_where p [] = 0
count_where p (x ∷ xs) = let rest = count_where p xs in if p x then 1 + rest else rest

-- `xs == tuple(sorted(set(xs)))`
unfoldable pub is_ascending : List ℕ → Bool
is_ascending [] = true
is_ascending (n ∷ []) = true
is_ascending (n ∷ m ∷ ms) = ltb n m && is_ascending (m ∷ ms)

unfoldable pub texts_differ : List String → Bool
texts_differ [] = true
texts_differ (t ∷ ts) = not (contains t ts) && texts_differ ts

abbrev has_count : Dict ℕ → String × ℕ → Bool
has_count d (k, n) = elim (lookup k d) [ none ↦ false | some m ↦ eqb m n ]

-- `==` of two dictionaries of counts.
unfoldable pub same_counts : Dict ℕ → Dict ℕ → Bool
same_counts d e = all (has_count e) d && all (has_count d) e

abbrev pub condition_ids : List PlannedCondition → List String
condition_ids = map (λ c. c.condition_id)

abbrev pub runs_on : Device → PlannedCondition → Bool
runs_on device c = same_device c.device device

abbrev pub ViewKey : Type 0
ViewKey = ℕ × ℕ × String

abbrev pub same_key : ViewKey → ViewKey → Bool
same_key j k = eqb j.0 k.0 && eqb j.1 k.1 && j.2 == k.2

abbrev pub view_key : PlannedCondition → ViewKey
view_key c = (c.dataset_id, c.seed, c.view_id)

abbrev na_key : NotApplicableConditionTuple → ViewKey
na_key t = (t.dataset_id, t.seed, t.view_id)

unfoldable pub keys_differ : List ViewKey → Bool
keys_differ [] = true
keys_differ (k ∷ ks) = not (member same_key k ks) && keys_differ ks

-- A condition of the view and of the model is there.
unfoldable pub has_condition : ViewKey → String → List PlannedCondition → Bool
has_condition k m [] = false
has_condition k m (c ∷ cs) = same_key (view_key c) k && c.model_id == m || has_condition k m cs

-- The five models of a view.
abbrev pub has_models : List PlannedCondition → ViewKey → Bool
has_models cs k = all (λ m. has_condition k m cs) model_order

-- `observed_v00 != expected_v00`
unfoldable pub v00_is_complete : PilotConditionInventory → Bool
v00_is_complete i =
    all
      (λ c.
        not (c.view_id == "V00")
        || member eqb c.dataset_id i.selected_dataset_ids
          && member eqb c.seed i.selected_seeds
          && contains c.model_id model_order)
      i.records
    && all (λ d. all (λ s. has_models i.records (d, s, "V00")) i.selected_seeds)
        i.selected_dataset_ids

unfoldable pub counts_are_derived : PilotConditionInventory → Bool
counts_are_derived i =
    same_counts i.counts_by_dataset (
      map (λ d. (decimal d, count_where (λ c. eqb c.dataset_id d) i.records))
        i.selected_dataset_ids)
    && same_counts i.counts_by_seed
        (map (λ s. (decimal s, count_where (λ c. eqb c.seed s) i.records)) i.selected_seeds)
    && same_counts i.counts_by_view
        (map (λ v. (v, count_where (λ c. c.view_id == v) i.records)) view_order)
    && same_counts i.counts_by_model
        (map (λ m. (m, count_where (λ c. c.model_id == m) i.records)) model_order)

abbrev numbers_json : List ℕ → Json
numbers_json ns = arr (items ns)
  where
    items : List ℕ → Items
    items [] = nil
    items (n ∷ ns) = cons (int n) (items ns)

abbrev array : List Json → Json
array vs = arr (items vs)
  where
    items : List Json → Items
    items [] = nil
    items (v ∷ vs) = cons v (items vs)

abbrev counts_json : Dict ℕ → Json
counts_json d = object (map (λ (k, n). (k, int n)) d)

-- `model_dump(mode="json", exclude={"inventory_sha256"})`
unfoldable pub inventory_json : PilotConditionInventory → Json
inventory_json i = object (
    ("schema_version", int 1)
    ∷ ("protocol_sha256", text i.protocol_sha256)
    ∷ ("records", array (map condition_json i.records))
    ∷ ("not_applicable_views", array (map not_applicable_json i.not_applicable_views))
    ∷ ("maximum_possible_view_tuples", int 264)
    ∷ ("maximum_possible_model_conditions", int 1320)
    ∷ ("selected_dataset_ids", numbers_json i.selected_dataset_ids)
    ∷ ("selected_seeds", numbers_json i.selected_seeds)
    ∷ ("actual_view_tuple_count", int i.actual_view_tuple_count)
    ∷ ("applicable_view_tuple_count", int i.applicable_view_tuple_count)
    ∷ ("not_applicable_view_count", int i.not_applicable_view_count)
    ∷ ("actual_condition_count", int i.actual_condition_count)
    ∷ ("cpu_condition_count", int i.cpu_condition_count)
    ∷ ("cuda_condition_count", int i.cuda_condition_count)
    ∷ ("counts_by_dataset", counts_json i.counts_by_dataset)
    ∷ ("counts_by_seed", counts_json i.counts_by_seed)
    ∷ ("counts_by_view", counts_json i.counts_by_view)
    ∷ ("counts_by_model", counts_json i.counts_by_model)
    ∷ ("source_hashes", object (map (λ (k, s). (k, text s)) i.source_hashes))
    ∷ [])

-- The types of the fields.
abbrev fields_are_valid : Digest → PilotConditionInventory → Bool
fields_are_valid h i =
    is_sha256 i.protocol_sha256
    && all (condition_is_valid h) i.records
    && all not_applicable_is_valid i.not_applicable_views
    && eqb (length i.selected_dataset_ids) 8
    && leb i.actual_view_tuple_count 264
    && leb i.applicable_view_tuple_count 264
    && leb i.not_applicable_view_count 264
    && leb i.actual_condition_count 1320
    && leb i.cpu_condition_count 1320
    && leb i.cuda_condition_count 1320
    && all (λ (m, n). contains m model_order) i.counts_by_model
    && all (λ (path, s). is_sha256 s) i.source_hashes
    && is_sha256 i.inventory_sha256

abbrev inventory_seeds : List ℕ
inventory_seeds = 1729 ∷ 2718 ∷ 31415 ∷ []

unfoldable pub inventory_is_valid : Digest → PilotConditionInventory → Bool
inventory_is_valid h i =
    fields_are_valid h i
    && texts_differ (condition_ids i.records)
    && eqb (length i.records) i.actual_condition_count
    && eqb (i.cpu_condition_count + i.cuda_condition_count) i.actual_condition_count
    && eqb (count_where (runs_on cpu) i.records) i.cpu_condition_count
    && eqb (count_where (runs_on cuda) i.records) i.cuda_condition_count
    && is_ascending i.selected_dataset_ids
    && same_numbers i.selected_seeds inventory_seeds
    && all (λ (path, s). is_relative_path path) i.source_hashes
    && leb 1 (length i.source_hashes)
    && v00_is_complete i
    && keys_differ (map na_key i.not_applicable_views)
    && all (λ c. not (member same_key (view_key c) (map na_key i.not_applicable_views))) i.records
    && eqb i.actual_view_tuple_count (length i.selected_dataset_ids * length i.selected_seeds * 11)
    && eqb (distinct_count same_key (map view_key i.records)) i.applicable_view_tuple_count
    && all (λ c. contains c.model_id model_order && has_models i.records (view_key c)) i.records
    && eqb i.actual_view_tuple_count (i.applicable_view_tuple_count + i.not_applicable_view_count)
    && eqb i.not_applicable_view_count (length i.not_applicable_views)
    && counts_are_derived i
    && i.inventory_sha256 == sha256_canonical_json h (inventory_json i)
