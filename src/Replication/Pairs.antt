-- ===== src/Replication/Pairs.antt =====
-- `_classify` and `_check_pair` of app/replication_monitor.py: the state of one replication pair.
-- What the host answers about the pair's cron entry and its newest replica snapshot comes as
-- values. The thresholds are floats in the source, exact for the products that occur here.
use pve_zfs_tool.Common.{
  ℕ, ◌-◌, ◌*◌, String, Bool, true, Option, none, some, leb, nat_beq, if◌then◌else◌, ◌||◌,
}
use pve_zfs_tool.Common.Case.{same_ci}
use pve_zfs_tool.Common.Words.{is_space, is_empty, strip, behind_first}
use pve_zfs_tool.Replication.Cron.{cron_interval_seconds}

pub data Status : Type 0 where
  ok warn crit pending no_schedule standby : Status

-- seconds since the newest replica snapshot, or until it where the clocks disagree
pub data Lag : Type 0 where
  behind ahead : ℕ → Lag

abbrev pub default_interval_seconds : ℕ
default_interval_seconds = 3600

abbrev pub lag_of : (now last_sync : ℕ) → Lag
lag_of now last_sync =
    if leb last_sync now then behind (now - last_sync) else ahead (last_sync - now)

-- `lag <= n`
abbrev pub at_most : Lag → ℕ → Bool
at_most (behind d) n = leb d n
at_most (ahead d) n = true

unfoldable pub classify : Option Lag → ℕ → Status
classify none interval = pending
classify (some lag) interval =
    let seconds = if nat_beq interval 0 then default_interval_seconds else interval in
    if at_most lag (seconds * 2) then ok else if at_most lag (seconds * 4) then warn else crit

pub record Config : Type 0 where
  pub path : String
  pub source : String
  pub target : String
  pub needs_import : Bool

-- what the host answers: the cron schedule, and the name and the time of the newest snapshot
pub record Answer : Type 0 where
  pub schedule : Option String
  pub newest : Option (String × ℕ)

pub record Snapshot : Type 0 where
  pub config_path : String
  pub source : String
  pub target : String
  pub schedule : Option String
  pub interval : Option ℕ
  pub newest_snapshot : Option String
  pub last_sync_ts : Option ℕ
  pub lag : Option Lag
  pub status : Status
  pub checked_at : ℕ

-- the lag, none without a snapshot or with one of time 0
abbrev pub known_lag : ℕ → Option ℕ → Option Lag
known_lag now none = none
known_lag now (some t) = if nat_beq t 0 then none else some (lag_of now t)

-- `interval or DEFAULT_INTERVAL_SECONDS`
abbrev pub interval_or_default : Option ℕ → ℕ
interval_or_default none = default_interval_seconds
interval_or_default (some n) = if nat_beq n 0 then default_interval_seconds else n

-- the status without a schedule
abbrev pub unscheduled : Option Lag → Status
unscheduled none = no_schedule
unscheduled (some lag) = classify (some lag) default_interval_seconds

unfoldable pub status_of : Option String → Option Lag → Status
status_of none lag = unscheduled lag
status_of (some schedule) lag =
    if is_empty schedule
    then unscheduled lag
    else classify lag (interval_or_default (cron_interval_seconds schedule))

abbrev pub interval_if_set : Option String → Option ℕ
interval_if_set none = none
interval_if_set (some schedule) = if is_empty schedule then none else cron_interval_seconds schedule

abbrev pub time_in : Option (String × ℕ) → Option ℕ
time_in none = none
time_in (some (name, t)) = some t

abbrev pub name_in : Option (String × ℕ) → Option String
name_in none = none
name_in (some (name, t)) = some name

unfoldable pub check_pair : Config → Answer → (now : ℕ) → Snapshot
check_pair cfg answer now =
    let target = strip is_space cfg.target in
    let newest = if is_empty target then none else answer.newest in
    let last_sync = time_in newest in
    let lag = known_lag now last_sync in
    record {
      config_path = cfg.path;
      source = strip is_space cfg.source;
      target = target;
      schedule = answer.schedule;
      interval = interval_if_set answer.schedule;
      newest_snapshot = name_in newest;
      last_sync_ts = last_sync;
      lag = lag;
      status = status_of answer.schedule lag;
      checked_at = now;
    }

-- `s.split("@", 1)[1] if "@" in s else s`
unfoldable pub behind_at : String → String
behind_at s = elim (behind_first b'@' s) [ none ↦ s | some ip ↦ ip ]

unfoldable pub source_ip : String → String
source_ip source = behind_at (strip is_space source)

unfoldable pub is_default_template : Config → Bool
is_default_template cfg = same_ci cfg.source "user@host" || same_ci cfg.target "pool/dataset"
