-- ===== src/Tasks.antt =====
-- app/tasks.py: the registry of background tasks. A call of `start_task` is two steps, the expiry
-- and the insertion, and a worker thread is the row of its calls of `_progress` and the end of
-- `_runner`; each of these holds the lock, so that an interleaving of threads is one row of steps. `R` is the type of the workers' results.
pub mod Laws
use pve_zfs_tool.Common.{
  ℕ, ◌+◌, ◌-◌, ◌*◌, String, Bool, true, false, not, ◌&&◌, Option, none, some, List, [], ◌∷◌, ◌++◌,
  ltb, nat_beq, string_eq, if◌then◌else◌, length, drop, filter,
}
use pve_zfs_tool.Common.Dict.{Dict, get, put}
use pve_zfs_tool.Common.Scan.{starts_with}

abbrev pub task_ttl_seconds : ℕ
task_ttl_seconds = 6 * 3600

pub data Status : Type 0 where
  running finished failed : Status

pub record Entry : Type 0 where
  pub t : ℕ
  pub msg : String

pub record Task (R : Type 0) : Type 0 where
  pub name : String
  pub status : Status
  pub progress : String
  pub started_at : ℕ
  pub finished_at : Option ℕ
  pub result : Option R
  pub error : String
  pub log : List Entry

abbrev pub is_running : Status → Bool
is_running running = true
is_running _ = false

-- a time that `and` takes for true
abbrev pub is_expired : Option ℕ → ℕ → Bool
is_expired none now = false
is_expired (some f) now = not (nat_beq f 0) && ltb (f + task_ttl_seconds) now

-- the last 500 entries
abbrev pub capped : List Entry → List Entry
capped log = if ltb 500 (length log) then drop (length log - 500) log else log

module _ {R : Type 0} where
  unfoldable pub gc_tasks : ℕ → Dict String (Task R) → Dict String (Task R)
  gc_tasks now [] = []
  gc_tasks now ((tid, r) ∷ tasks) =
      let rest = gc_tasks now tasks in
      if is_expired r.finished_at now then rest else (tid, r) ∷ rest

  abbrev pub new_task : String → ℕ → Task R
  new_task name now = record {
    name = name;
    status = running;
    progress = "";
    started_at = now;
    finished_at = none;
    result = none;
    error = "";
    log = [];
  }

  -- the second time that `start_task` holds the lock
  unfoldable pub register : String → String → ℕ → Dict String (Task R) → Dict String (Task R)
  register tid name now tasks = put tid (new_task name now) tasks

  -- without another thread between the two
  unfoldable pub start_task : String → String → ℕ → Dict String (Task R) → Dict String (Task R)
  start_task tid name now tasks = register tid name now (gc_tasks now tasks)

  -- a write to the record of a task, if it is still there
  unfoldable pub update : String → (Task R → Task R) → Dict String (Task R) → Dict String (Task R)
  update tid f tasks = elim (get tid tasks) [ none ↦ tasks | some r ↦ put tid (f r) tasks ]

  -- `_progress`
  abbrev pub report : String → ℕ → Task R → Task R
  report msg now r = record r {
    progress = msg;
    log = capped (r.log ++ record { t = now; msg = msg } ∷ []);
  }

  -- the two ends of `_runner`
  abbrev pub succeed : R → ℕ → Task R → Task R
  succeed result now r = record r {
    status = finished;
    result = some result;
    finished_at = some now;
  }

  abbrev pub fail : String → ℕ → Task R → Task R
  fail error now r = record r { status = failed; error = error; finished_at = some now }

  -- the tasks in flight whose name starts with a prefix
  unfoldable pub running_tasks : String → Dict String (Task R) → Dict String (Task R)
  running_tasks name_prefix [] = []
  running_tasks name_prefix ((tid, r) ∷ tasks) =
      let rest = running_tasks name_prefix tasks in
      if is_running r.status && starts_with name_prefix r.name then (tid, r) ∷ rest else rest

  unfoldable pub get_task : String → Dict String (Task R) → Option (Task R)
  get_task tid tasks = get tid tasks

-- what the threads do to the registry
pub data Step (R : Type 0) : Type 0 where
  expires : ℕ → Step R  -- the two halves of `start_task`
  registers : String → String → ℕ → Step R
  reports : String → String → ℕ → Step R
  succeeds : String → R → ℕ → Step R
  fails : String → String → ℕ → Step R

module _ {R : Type 0} where
  unfoldable pub step : Step R → Dict String (Task R) → Dict String (Task R)
  step (expires now) tasks = gc_tasks now tasks
  step (registers tid name now) tasks = register tid name now tasks
  step (reports tid msg now) tasks = update tid (report msg now) tasks
  step (succeeds tid result now) tasks = update tid (succeed result now) tasks
  step (fails tid error now) tasks = update tid (fail error now) tasks

  unfoldable pub steps : List (Step R) → Dict String (Task R) → Dict String (Task R)
  steps [] tasks = tasks
  steps (s ∷ ss) tasks = steps ss (step s tasks)
