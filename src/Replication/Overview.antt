-- ===== src/Replication/Overview.antt =====
-- `health_snapshot` and `source_health_map` of app/replication_monitor.py: the view over all hosts,
-- and the worst status per source from the rows that the rounds left.
pub mod Worst
use Prim.Native.Nat.{suc}
use pve_zfs_tool.Common.{
  ℕ, String, Bool, Option, none, some, List, [], ◌∷◌, ◌++◌, ltb, if◌then◌else◌, string_eq,
}
use pve_zfs_tool.Common.Dict.{Dict, get, put}
use pve_zfs_tool.Common.Words.{is_empty}
use pve_zfs_tool.Replication.Pairs.{
  Status, ok, warn, crit, pending, no_schedule, standby, Snapshot, Config, Answer, source_ip,
}
use pve_zfs_tool.Replication.Alerts.{Host, Row, Store, Note, run_checks_for_host}

-- how many pairs have each status
pub record Summary : Type 0 where
  pub oks : ℕ
  pub warns : ℕ
  pub crits : ℕ
  pub pendings : ℕ
  pub no_schedules : ℕ
  pub standbys : ℕ

-- `summary[s] = summary.get(s, 0) + 1`
unfoldable pub count_status : Status → Summary → Summary
count_status ok c = record c { oks = suc c.oks }
count_status warn c = record c { warns = suc c.warns }
count_status crit c = record c { crits = suc c.crits }
count_status pending c = record c { pendings = suc c.pendings }
count_status no_schedule c = record c { no_schedules = suc c.no_schedules }
count_status standby c = record c { standbys = suc c.standbys }

abbrev pub no_counts : Summary
no_counts = record { oks = 0; warns = 0; crits = 0; pendings = 0; no_schedules = 0; standbys = 0 }

unfoldable pub count_all : List Snapshot → Summary → Summary
count_all [] c = c
count_all (p ∷ ps) c = count_all ps (count_status p.status c)

-- a host's turn: when it is checked, and what it answers about its configurations
pub record Visit : Type 0 where
  pub address : String
  pub now : ℕ
  pub configs : Option (List (Config × Option Answer))

unfoldable pub check_hosts : List Host → List Visit → Store → List Snapshot × Store × List Note
check_hosts hosts [] s = ([], s, [])
check_hosts hosts (v ∷ vs) s =
    let (pairs, s', notes) = run_checks_for_host hosts v.now v.address v.configs s in
    let (pairs', s'', notes') = check_hosts hosts vs s' in (pairs ++ pairs', s'', notes ++ notes')

-- the pairs with their counts, what is stored and what is sent
unfoldable pub health_snapshot :
    List Host → List Visit → Store → (List Snapshot × Summary) × Store × List Note
health_snapshot hosts vs s =
    let (pairs, s', notes) = check_hosts hosts vs s in
    ((pairs, count_all pairs no_counts), s', notes)

unfoldable pub status_rank : Status → ℕ
status_rank ok = 0
status_rank no_schedule = 1
status_rank pending = 1
status_rank standby = 1
status_rank warn = 2
status_rank crit = 3

-- `_extract_ip(source) or source`
abbrev pub ip_of : String → String
ip_of source = if is_empty (source_ip source) then source else source_ip source

-- `if ip not in out or rank > rank of out[ip]: out[ip] = status`
unfoldable pub put_worse : String → Status → Dict String Status → Dict String Status
put_worse ip status out = elim (get ip out) [
  | none ↦ put ip status out
  | some old ↦ if ltb (status_rank old) (status_rank status) then put ip status out else out
]

unfoldable pub add_row : Row → Dict String Status → Dict String Status
add_row row out = if is_empty row.source then out else put_worse (ip_of row.source) row.status out

unfoldable pub add_rows : Store → Dict String Status → Dict String Status
add_rows [] out = out
add_rows ((key, row) ∷ rows) out = add_rows rows (add_row row out)

unfoldable pub source_health_map : Store → Dict String Status
source_health_map rows = add_rows rows []
