-- ===== src/Runner/Record.antt =====
-- runner/contracts.py: attempts, transitions, the state record of a task and the persisted state.
use schema_guard.Base.{
  ℕ, String, ◌≡◌, Bool, true, false, not, ◌&&◌, ◌||◌, Option, none, some, List, [], ◌∷◌, leb, eqb,
  ◌↔◌, and3-eq-true, and4-eq-true, is_none, optionally, all, codes, if◌then◌else◌,
}
use schema_guard.Base.Dict.{Dict}
use schema_guard.Hashing.{Digest}
use schema_guard.Cache.Identity.{is_sha256}
use schema_guard.Runner.Task.{TaskSpec, task_is_valid}
use schema_guard.Runner.Resource.{
  FailureCategory, Datetime, ResourceRecord, pid_is_valid, resource_is_valid, utc,
}

pub data TaskStatus : Type 0 where
  pending running complete failed blocked cancelled : TaskStatus

pub record TaskAttempt : Type 0 where
  pub attempt_number : ℕ
  pub state : TaskStatus
  pub started_at : Datetime
  pub heartbeat_at : Datetime
  pub ended_at : Option Datetime
  pub owner_pid : Option ℕ
  pub worker_pid : Option ℕ
  pub resource : Option ResourceRecord
  pub failure_category : Option FailureCategory
  pub reason : Option String

pub record TaskTransition : Type 0 where
  pub from_state : TaskStatus
  pub to_state : TaskStatus
  pub timestamp : Datetime
  pub reason : Option String

pub record TaskStateRecord : Type 0 where
  pub task : TaskSpec
  pub state : TaskStatus
  pub attempts : List TaskAttempt
  pub transitions : List TaskTransition
  pub artifact_path : Option String
  pub artifact_sha256 : Option String
  pub cache_hit : Bool
  pub failure_category : Option FailureCategory
  pub failure_reason : Option String
  pub updated_at : Datetime

pub record SchedulerState : Type 0 where
  pub schema_version : ℕ
  pub plan_hash : String
  pub tasks : Dict TaskStateRecord

-- `TaskStateRecord(task=task)`: every other field has its default.
unfoldable pub new_record : ℕ → TaskSpec → TaskStateRecord
new_record now t = record {
  task = t;
  state = pending;
  attempts = [];
  transitions = [];
  artifact_path = none;
  artifact_sha256 = none;
  cache_hit = false;
  failure_category = none;
  failure_reason = none;
  updated_at = utc now;
}

-- A part of a path, seen so far: nothing, one dot, two dots, or another name.
pub data Part : Type 0 where
  empty one_dot two_dots other : Part

part_step : Part → ℕ → Part
part_step empty c = if eqb c b'.' then one_dot else other
part_step one_dot c = if eqb c b'.' then two_dots else other
part_step _ c = other

is_two_dots : Part → Bool
is_two_dots two_dots = true
is_two_dots _ = false

-- `".." in PurePosixPath(path).parts`, from the part read so far.
has_parent_part : Part → List ℕ → Bool
unfolding part_step is_two_dots
has_parent_part p [] = is_two_dots p
has_parent_part p (c ∷ cs) =
    if eqb c b'/'
    then is_two_dots p || has_parent_part empty cs
    else has_parent_part (part_step p c) cs

-- `PurePosixPath(path).is_absolute()`
posix_absolute : List ℕ → Bool
posix_absolute [] = false
posix_absolute (c ∷ cs) = eqb c b'/'

-- `PureWindowsPath(path).is_absolute()` on a path without backslashes that does not begin with a
-- slash: a drive, and a root behind it.
windows_drive_root : List ℕ → Bool
windows_drive_root (d ∷ colon ∷ root ∷ cs) = eqb colon b':' && eqb root b'/'
windows_drive_root _ = false

has_backslash : List ℕ → Bool
has_backslash [] = false
has_backslash (c ∷ cs) = eqb c 92 || has_backslash cs

-- The test of `validate_artifact_state` on the path of an artifact.
unfoldable pub is_portable_path : String → Bool
unfolding posix_absolute windows_drive_root has_parent_part has_backslash
is_portable_path path =
    let cs = codes path in
    not (posix_absolute cs || windows_drive_root cs || has_parent_part empty cs || has_backslash cs)

-- `validate_artifact_state`, by the state and the two artifact fields.
unfoldable pub artifact_state_is_valid : TaskStatus → Option String → Option String → Bool
unfolding is_portable_path
artifact_state_is_valid complete (some path) (some digest) = is_portable_path path
artifact_state_is_valid complete path digest = false
artifact_state_is_valid _ path digest = is_none path && is_none digest

unfoldable pub attempt_is_valid : TaskAttempt → Bool
unfolding resource_is_valid
attempt_is_valid a =
    leb 1 a.attempt_number
    && pid_is_valid a.owner_pid
    && pid_is_valid a.worker_pid
    && optionally resource_is_valid a.resource

unfoldable pub record_is_valid : Digest → TaskStateRecord → Bool
unfolding task_is_valid attempt_is_valid artifact_state_is_valid
record_is_valid h r =
    task_is_valid h r.task
    && all attempt_is_valid r.attempts
    && optionally is_sha256 r.artifact_sha256
    && artifact_state_is_valid r.state r.artifact_path r.artifact_sha256

-- `SchedulerState.model_validate`
unfoldable pub state_is_valid : Digest → SchedulerState → Bool
unfolding record_is_valid
state_is_valid h s =
    eqb s.schema_version 1 && is_sha256 s.plan_hash && all (λ e. record_is_valid h e.1) s.tasks

-- The four parts of a valid record, with their tests shut.
pub record_is_valid_iff :
    (h : Digest) (r : TaskStateRecord)
    → (record_is_valid h r ≡ true) ↔ (
        (task_is_valid h r.task ≡ true)
        × (all attempt_is_valid r.attempts ≡ true)
        × (optionally is_sha256 r.artifact_sha256 ≡ true)
        × (artifact_state_is_valid r.state r.artifact_path r.artifact_sha256 ≡ true))
unfolding record_is_valid
record_is_valid_iff h r = and4-eq-true _ _ _ _

pub state_is_valid_iff :
    (h : Digest) (s : SchedulerState)
    → (state_is_valid h s ≡ true) ↔ (
        (eqb s.schema_version 1 ≡ true)
        × (is_sha256 s.plan_hash ≡ true)
        × (all (λ e. record_is_valid h e.1) s.tasks ≡ true))
unfolding state_is_valid
state_is_valid_iff h s = and3-eq-true _ _ _
