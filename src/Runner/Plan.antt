-- ===== src/Runner/Plan.antt =====
-- runner/contracts.py: run plans, their canonical order and their hash.
use Prim.Native.Nat.{Ordering}
use Prim.Native.String.{compare}
use schema_guard.Base.{
  ℕ, String, Bool, true, false, not, ◌&&◌, ◌||◌, List, [], ◌∷◌, map, eqb, all, Result, ok, err,
  validation_error, if◌then◌else◌,
}
use schema_guard.Base.Dict.{contains}
use schema_guard.Hashing.{
  Json, Items, nil, cons, text, int, float, arr, Digest, sha256_canonical_json, object,
}
use schema_guard.Cache.Identity.{identity_json}
use schema_guard.Runner.Task.{TaskSpec, operation_text, task_is_valid}

pub record RunPlan : Type 0 where
  pub schema_version : ℕ
  pub tasks : List TaskSpec
  pub random_seed : ℕ
  pub cpu_workers : ℕ
  pub gpu_workers : ℕ

abbrev pub task_ids : List TaskSpec → List String
task_ids = map (λ t. t.task_id)

-- `len(ids) == len(set(ids))`
unfoldable pub all_distinct : List String → Bool
unfolding contains
all_distinct [] = true
all_distinct (x ∷ xs) = not (contains x xs) && all_distinct xs

-- `s <= t` on texts.
unfoldable pub text_le : String → String → Bool
text_le s t = elim (compare s t) [ Ordering.gt ↦ false | _ ↦ true ]

-- `ids == sorted(ids)`
unfoldable pub is_ascending : List String → Bool
unfolding text_le
is_ascending [] = true
is_ascending (x ∷ []) = true
is_ascending (x ∷ y ∷ xs) = text_le x y && is_ascending (y ∷ xs)

-- The field constraints and `unique_and_ordered_tasks`.
unfoldable pub plan_is_valid : Digest → RunPlan → Bool
unfolding task_is_valid all_distinct is_ascending
plan_is_valid h p =
    eqb p.schema_version 1
    && all (task_is_valid h) p.tasks
    && (eqb p.cpu_workers 1 || eqb p.cpu_workers 2)
    && eqb p.gpu_workers 1
    && all_distinct (task_ids p.tasks)
    && is_ascending (task_ids p.tasks)

-- One step of the stable `sorted(tasks, key=lambda task: task.task_id)`.
unfoldable pub insert_task : TaskSpec → List TaskSpec → List TaskSpec
unfolding text_le
insert_task t [] = t ∷ []
insert_task t (u ∷ us) = if text_le t.task_id u.task_id then t ∷ u ∷ us else u ∷ insert_task t us

unfoldable pub sort_tasks : List TaskSpec → List TaskSpec
unfolding insert_task
sort_tasks [] = []
sort_tasks (t ∷ ts) = insert_task t (sort_tasks ts)

unfoldable pub build_plan : Digest → List TaskSpec → ℕ → ℕ → Result RunPlan
unfolding sort_tasks plan_is_valid
build_plan h tasks random_seed cpu_workers =
    let plan : RunPlan = record {
      schema_version = 1;
      tasks = sort_tasks tasks;
      random_seed = random_seed;
      cpu_workers = cpu_workers;
      gpu_workers = 1;
    } in
    if plan_is_valid h plan then ok plan else err validation_error

-- `model_dump(mode="json")` of a task and of a plan.
unfoldable pub task_json : TaskSpec → Json
unfolding operation_text identity_json
task_json t = object (
    ("task_id", text t.task_id)
    ∷ ("task_name", text t.task_name)
    ∷ ("cache_identity", identity_json t.cache_identity)
    ∷ ("operation", text (operation_text t.operation))
    ∷ ("payload_token", text t.payload_token)
    ∷ ("delay_seconds", float t.delay_seconds)
    ∷ ("timeout_seconds", float t.timeout_seconds)
    ∷ [])

task_items : List TaskSpec → Items
unfolding task_json
task_items [] = nil
task_items (t ∷ ts) = cons (task_json t) (task_items ts)

unfoldable pub plan_hash : Digest → RunPlan → String
unfolding task_items sha256_canonical_json
plan_hash h p = sha256_canonical_json h (
    object (
      ("schema_version", int p.schema_version)
      ∷ ("tasks", arr (task_items p.tasks))
      ∷ ("random_seed", int p.random_seed)
      ∷ ("cpu_workers", int p.cpu_workers)
      ∷ ("gpu_workers", int p.gpu_workers)
      ∷ []))
