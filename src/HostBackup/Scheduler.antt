-- ===== src/HostBackup/Scheduler.antt =====
-- `_scheduler_tick`, `_record_failure`, `_record_success` and `_newest_backup_dt` of
-- app/hostbackup.py. What runs over SSH and the clocks are parameters of one visit: the local time,
-- the epoch time at which the host's turn comes, and the backup that `create_backup` stores.
pub mod Laws
use pve_zfs_tool.Common.{
  ℕ, ◌+◌, String, Bool, true, false, not, Option, none, some, List, [], ◌∷◌, ◌++◌, ltb, ◌==◌,
  string_eq, if◌then◌else◌, contains, filter,
}
use pve_zfs_tool.Common.Dict.{Dict, get, put, remove}
use pve_zfs_tool.Common.Sort.{sorted}
use pve_zfs_tool.Common.Text.{str_le}
use pve_zfs_tool.HostBackup.{is_valid_backup_name, scan_stamp, prune_backups}
use pve_zfs_tool.HostBackup.Due.{Sched, backup_due}

abbrev pub retry_throttle_sec : ℕ
retry_throttle_sec = 1800

-- the module's state, the registered hosts with their `standby` mark, and the stored files
pub record World : Type 0 where
  pub hosts : Dict String Bool
  pub files : Dict String (List String)
  pub failing : Dict String ℕ
  pub last_attempt : Dict String ℕ
  pub standby_logged : List String

pub data Event : Type 0 where
  failed recovered : String → Event
  attempted : String → ℕ → Event

-- what the visit of one host meets outside the module
pub record Outside : Type 0 where
  pub month_of : ℕ → ℕ
  pub strptime : ℕ → Option ℕ  -- the time of fourteen digits, none for an impossible date
  pub removable : String → Bool
  pub now : ℕ
  pub epoch : String → ℕ
  pub create : String → Option String  -- the file that `create_backup` stored; none if it failed

-- the first name that has a time, in the order given
unfoldable pub first_dt : (ℕ → Option ℕ) → List String → Option ℕ
first_dt strptime [] = none
first_dt strptime (name ∷ names) =
    let rest = first_dt strptime names in
    elim (scan_stamp name) [
      | none ↦ rest
      | some (n, _) ↦ elim (strptime n) [ none ↦ rest | some t ↦ some t ]
    ]

-- `list_backups`: newest name first
unfoldable pub newest_backup_dt : (ℕ → Option ℕ) → List String → Option ℕ
unfolding first_dt
newest_backup_dt strptime files =
    first_dt strptime (sorted (λ a b. str_le b a) (filter is_valid_backup_name files))

abbrev pub files_of : String → World → List String
files_of address w = elim (get address w.files) [ none ↦ [] | some fs ↦ fs ]

abbrev pub add_file : String → List String → List String
add_file name files = if contains name files then files else files ++ name ∷ []

unfoldable pub record_failure : String → ℕ → World → World × List Event
record_failure address epoch w = elim (get address w.failing) [
  | some since ↦ (w, [])
  | none ↦ (record w { failing = put address epoch w.failing }, failed address ∷ [])
]

unfoldable pub record_success : String → World → World × List Event
record_success address w = (
  record w { failing = remove address w.failing },
  elim (get address w.failing) [ none ↦ [] | some since ↦ recovered address ∷ [] ],
)

-- from the attempt on
unfoldable pub attempt : Outside → String → Sched → World → World × List Event
attempt o address sched w =
    let tried = record w { last_attempt = put address (o.epoch address) w.last_attempt } in
    elim (o.create address) [
      | none ↦ record_failure address (o.epoch address) tried
      | some name ↦
          let stored = add_file name (files_of address w) in
          record_success address (record tried {
            files = put address (prune_backups o.removable stored sched.keep).0 w.files;
          })
    ]

abbrev pub throttled : Option ℕ → ℕ → Bool
throttled none epoch = ltb epoch retry_throttle_sec
throttled (some last) epoch = ltb epoch (last + retry_throttle_sec)

-- the body of the loop for a registered host that is not marked as expected offline
unfoldable pub visit_up : Outside → String → Sched → World → World × List Event
visit_up o address sched w =
    let w' = record w { standby_logged = filter (λ a. not (a == address)) w.standby_logged } in
    if not (backup_due o.month_of (newest_backup_dt o.strptime (files_of address w)) o.now sched)
    then (w', [])
    else if throttled (get address w.last_attempt) (o.epoch address)
    then (w', [])
    else let (w'', events) = attempt o address sched w' in
      (w'', attempted address (o.epoch address) ∷ events)

unfoldable pub visit : Outside → String × Sched → World → World × List Event
visit o (address, sched) w = if not sched.enabled then (w, []) else elim (get address w.hosts) [
  | none ↦ (w, [])
  | some true ↦ (
    record w {
      standby_logged =
          (if contains address w.standby_logged
            then w.standby_logged
            else address ∷ w.standby_logged);
    },
    [],
  )
  | some false ↦ visit_up o address sched w
]

unfoldable pub tick : Outside → List (String × Sched) → World → World × List Event
tick o [] w = (w, [])
tick o (s ∷ ss) w =
    let (w', events) = visit o s w in let (w'', more) = tick o ss w' in (w'', events ++ more)

-- the loop of the scheduler's thread: a tick with what it meets, over the schedules of that time
unfoldable pub ticks : List (Outside × List (String × Sched)) → World → World × List Event
ticks [] w = (w, [])
ticks ((o, ss) ∷ rest) w =
    let (w', events) = tick o ss w in let (w'', more) = ticks rest w' in (w'', events ++ more)
