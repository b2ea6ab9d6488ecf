-- ===== src/Lib.antt =====
-- SchemaGuard: the cache and scheduler core, the part of the program that decides which unit of
-- work runs, what its outcome is worth, and which artifact may be reused; the preparation of its
-- data, that is the splits into partitions and the views of the tables; and the plan of the pilot
-- experiment, from the choice of its data sets to its staged schedule.
--
-- The program (src/schemaguard) plans experiments as tasks. A task is named by the SHA-256 of its
-- specification, and its result is an artifact in a content-addressed cache, named by the SHA-256
-- of the canonical JSON of everything the artifact depends on. A scheduler runs the tasks in
-- isolated workers and keeps what it knows of each in one JSON state file, which it writes
-- atomically and under a lock, so that a run that was killed can be resumed by another process.
--
-- Files, with the code that each models:
--   Base               the numbers, lists, texts, dictionaries and raised exceptions of the model
--   Hashing            src/schemaguard/utils/hashing.py: `_canonicalize`, `sha256_canonical_json`
--   Cache.Identity     src/schemaguard/cache/contracts.py: `CacheIdentity`
--   Cache.Manifest     the same file: `CacheArtifactManifest`, `CompletionMarker`
--   Cache.Files        what cache/store.py takes from Python's library, as an interface
--   Cache.Entry        src/schemaguard/cache/store.py: one entry directory, its validation and the
--                      transaction that builds it
--   Cache.Store        the same file: `CacheStore`, its reads, publications and quarantine
--   Cache.Scan         the same file: `iter_validated`
--   Cache.Index        src/schemaguard/cache/index.py: `CacheIndex`
--   Cache.FaultPolicy  src/schemaguard/cache/fault_policy.py
--   Cache.Faults       src/schemaguard/cache/contracts.py: the fault-injection evidence
--   Cache.Probes       the same file: `CacheSchedulerConfig` and the scheduler probe's evidence
--   Runner.Task        src/schemaguard/runner/contracts.py: `TaskSpec`, `task_identity`
--   Runner.Plan        the same file: `RunPlan`, `build_plan`
--   Runner.Resource    the same file: `FailureCategory`, `ResourceRecord`
--   Runner.Record      the same file: `TaskAttempt`, `TaskTransition`, `TaskStateRecord`,
--                      `SchedulerState`
--   Runner.Transition  src/schemaguard/runner/state.py: what an operation does to one record
--   Runner.State       the same file: `TaskStateStore`, on the state file
--   Runner.Scheduler   src/schemaguard/runner/scheduler.py: the loop of `Scheduler.run` over the
--                      tasks of the plan, before any worker starts
--   Runner.Execute     the same file: `_execute_locked`, with the worker process as an argument
--   Split.Config       src/schemaguard/splits/contracts.py: `SplitGenerationConfig`
--   Split.Folds        src/schemaguard/splits/selection.py: `_folds`
--   Split.Candidate    the same file: `_candidate`
--   Split.Select       the same file: `select_fold_assignment`
--   Transform.Names    src/schemaguard/transformations/base.py: `collision_safe_name`
--   Transform.Frame    pandas' data frames, as far as the views use them
--   Transform.Base     src/schemaguard/transformations/base.py: `BaseTransformation`
--   Transform.Views    the views of src/schemaguard/transformations: identity.py,
--                      column_permutation.py, duplicate_feature.py, row_permutation.py
--                      and quotient_remainder.py
--   Pilot.Metadata     src/schemaguard/experiments/pilot_contracts.py: `SelectionPolicy`, and the
--                      profiles of src/schemaguard/experiments/pilot_planning.py
--   Pilot.Select       src/schemaguard/experiments/pilot_planning.py: `select_candidate_ids`
--   Pilot.RelativePath, Pilot.Condition, Pilot.Inventory
--                      src/schemaguard/experiments/pilot_contracts.py: `validate_relative_path`, the
--                      planned conditions with their identities, and the condition inventory
--   Pilot.Schedule     src/schemaguard/experiments/pilot_planning.py: `build_staged_schedule`, with
--                      the validators of the stage and the schedule
--   Tests              runs on concrete inputs
--
-- State. `StateFile` is the state file: missing, or text that `model_validate` accepts or refuses.
-- Every operation of `TaskStateStore` holds the file lock from its read to its write and writes by
-- an atomic replacement, so it is one step from a file to a file and a result; an interleaving of
-- processes is a list of such steps. What the operations take from outside, the clock, the
-- process's own id and the test whether a process exists, are arguments of each step.
--
-- The root directory of the cache is a `Store`: its entry directories by key, left-over transactions
-- and quarantined entries. An operation holds the lock of its key, so it is one step too; that a
-- process may be killed between two writes of a publication is `disk_states`. What the operating
-- system answers to `os.replace` and what a changing source file shows are arguments. The content of
-- files, their digests and the parser of their JSON are the parameter `Files` with the laws
-- `IsLawful`. The index is a table by its primary key, a missing file or a file that is no database.
--
-- Values. A float of the cache and the runner is counted in millionths, as a natural number. A
-- datetime is its instant in microseconds and whether it carries a zone. `Digest` stands for
-- `json.dumps` followed by SHA-256 and is a parameter; it is nowhere assumed to be injective, and
-- where two payloads must not collide that is a hypothesis on those two. The digest of a schedule,
-- whose payload has floats, is a parameter on the payload itself. A float of the splits and of the
-- schedule that is not negative is its bit pattern, and the operations on floats are the parameters
-- `Arithmetic` and `Floats`, Python's `sum` among them; what pandas does to a column is the parameter
-- `Pandas`, and the folds of scikit-learn are an argument. The arithmetic of Int64 columns wraps around
-- at 64 bits.
-- Only the loop of `collision_safe_name` and the printing of a number have fuel: the first has one
-- round more than there are names, which is shown to be enough, the second as many rounds as the
-- number, which has fewer digits. Every other loop is structural recursion.
--
-- Not modelled: the worker process and what it measures, the pools of the scheduler and their
-- counters, the fault-injection harness, the data pipelines, the files of a split and its validation,
-- the row index of a data frame, which the row permutation resets and does not bring back, the views
-- on floats and categories, the certificates, the model adapters, the rest of the
-- experiments and their statistics, the command line, and all input and output.
pub mod Base
pub mod Hashing
pub mod Split
pub mod Transform
pub mod Pilot
pub mod Cache
pub mod Runner
mod Tests
