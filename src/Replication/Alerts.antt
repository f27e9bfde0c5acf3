-- ===== src/Replication/Alerts.antt =====
-- `_maybe_alert_locked`, `run_checks_for_host` and `health_snapshot` of app/replication_monitor.py:
-- the rows of scope "repl" of monitor_state, and the notifications about replication pairs. `now`
-- is the whole second at which the checks run. A message that cannot be delivered counts as sent,
-- as in the source.
pub mod Laws
pub mod Quiet
use Prim.Native.String.{◌++◌ as ◌+++◌}
use pve_zfs_tool.Common.{
  ℕ, ◌*◌, String, Bool, true, false, Option, none, some, List, [], ◌∷◌, ◌++◌, any, filter, contains,
  if◌then◌else◌, ◌==◌, string_eq, ◌||◌, ◌&&◌,
}
use pve_zfs_tool.Common.Dict.{Dict, get, put}
use pve_zfs_tool.Monitor.{cooldown_ok}
use pve_zfs_tool.Replication.Pairs.{
  Status, ok, warn, crit, pending, no_schedule, standby, Lag, Snapshot, Config, Answer, check_pair,
  source_ip, is_default_template,
}

abbrev pub alert_cooldown_seconds : ℕ
alert_cooldown_seconds = 6 * 3600

-- a host of the tool's list, with what `host_is_muted` says of it
pub record Host : Type 0 where
  pub address : String
  pub name : String
  pub standby : Bool
  pub muted : Bool

pub record Row : Type 0 where
  pub status : Status
  pub last_sync_ts : Option ℕ
  pub lag : Option Lag
  pub schedule : Option String
  pub source : String
  pub target : String
  pub last_alert_ts : Option ℕ

abbrev pub Store : Type 0
Store = Dict String Row

pub data Headline : Type 0 where
  worse recovered still : Headline

pub record Note : Type 0 where
  pub headline : Headline
  pub host : String
  pub priority : ℕ
  pub pair : Snapshot
  pub at_time : ℕ

unfoldable pub state_key : String → String → String
state_key address path = address +++ "::" +++ path

abbrev pub is_troubled : Status → Bool
is_troubled warn = true
is_troubled crit = true
is_troubled _ = false

abbrev pub is_crit : Status → Bool
is_crit crit = true
is_crit _ = false

abbrev pub is_ok : Status → Bool
is_ok ok = true
is_ok _ = false

abbrev pub same_status : Status → Status → Bool
same_status ok ok = true
same_status warn warn = true
same_status crit crit = true
same_status pending pending = true
same_status no_schedule no_schedule = true
same_status standby standby = true
same_status _ _ = false

abbrev pub status_in : Option Row → Option Status
status_in none = none
status_in (some row) = some row.status

abbrev pub alert_in : Option Row → Option ℕ
alert_in none = none
alert_in (some row) = row.last_alert_ts

-- what a change of the status is worth, a new pair's first status included
abbrev pub on_change : Option Status → Status → Option Headline
on_change none new = if is_troubled new then some worse else none
on_change (some old) new =
    if same_status old new
    then none
    else if is_troubled new
    then some worse
    else if is_ok new && is_troubled old
    then some recovered
    else none

unfoldable pub headline_of : Option Status → Status → Option ℕ → ℕ → Option Headline
headline_of old new last now = elim (on_change old new) [
  | some h ↦ some h
  | none ↦ if is_crit new && cooldown_ok last alert_cooldown_seconds now then some still else none
]

abbrev pub row_of : Snapshot → Option ℕ → Row
row_of snap alert = record {
  status = snap.status;
  last_sync_ts = snap.last_sync_ts;
  lag = snap.lag;
  schedule = snap.schedule;
  source = snap.source;
  target = snap.target;
  last_alert_ts = alert;
}

unfoldable pub is_source_muted : List Host → Snapshot → Bool
is_source_muted hosts snap =
    any (λ h. h.muted) (filter (λ h. h.address == source_ip snap.source) hosts)

abbrev pub note_of : Headline → String → Snapshot → ℕ → Note
note_of h address snap now = record {
  headline = h;
  host = address;
  priority = if is_crit snap.status then 8 else 5;
  pair = snap;
  at_time = now;
}

unfoldable pub maybe_alert : List Host → (now : ℕ) → String → Snapshot → Store → Store × List Note
maybe_alert hosts now address snap s =
    let key = state_key address snap.config_path in
    let old = get key s in
    let kept = put key (row_of snap (alert_in old)) s in
    elim (headline_of (status_in old) snap.status (alert_in old) now) [
      | none ↦ (kept, [])
      | some h ↦
          if is_source_muted hosts snap
          then (kept, [])
          else (put key (row_of snap (some now)) kept, note_of h address snap now ∷ [])
    ]

unfoldable pub standby_sources : List Host → List String
standby_sources [] = []
standby_sources (h ∷ hosts) =
    if h.standby then h.address ∷ standby_sources hosts else standby_sources hosts

abbrev pub on_standby : Snapshot → Snapshot
on_standby snap = record snap { status = standby }

-- the pair as it is judged
unfoldable pub judged : List Host → Config → Answer → ℕ → Snapshot
judged hosts cfg answer now =
    let snap = check_pair cfg answer now in
    if contains (source_ip cfg.source) (standby_sources hosts) then on_standby snap else snap

abbrev pub is_skipped : Config → Bool
is_skipped cfg = is_default_template cfg || cfg.needs_import

module _ (hosts : List Host) (now : ℕ) (address : String) where
  -- the loop over the configurations, each with what the host answers, none where a check fails
  unfoldable pub check_configs :
      List (Config × Option Answer) → Store → List Snapshot × Store × List Note
  check_configs [] s = ([], s, [])
  check_configs ((cfg, none) ∷ cs) s = check_configs cs s
  check_configs ((cfg, some answer) ∷ cs) s =
      let snap = judged hosts cfg answer now in
      let (s', a) = maybe_alert hosts now address snap s in
      let (snaps, s'', more) = check_configs cs s' in
      let (others, t, notes) = check_configs cs s in
      if is_skipped cfg then (others, t, notes) else (snap ∷ snaps, s'', a ++ more)

  -- the checks of a host whose configurations are read, none where they cannot be
  unfoldable pub run_checks_for_host :
      Option (List (Config × Option Answer)) → Store → List Snapshot × Store × List Note
  run_checks_for_host none s = ([], s, [])
  run_checks_for_host (some cs) s = check_configs cs s
