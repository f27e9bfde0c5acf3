-- ===== src/Monitor.antt =====
-- app/monitor.py: the alert state of each monitored object, and the checks that decide which
-- change is worth a notification. `now` is the whole second at which the check runs.
pub mod Capacity
pub mod Errors
pub mod Health
pub mod Reachability
pub mod Rows
pub mod Stale
pub mod Topology
use Prim.Native.String.{◌++◌}
use pve_zfs_tool.Common.{
  ℕ, ◌+◌, ◌*◌, String, Bool, true, false, Option, none, some, leb, nat_beq, if◌then◌else◌, pair_eq,
  string_eq,
}
use pve_zfs_tool.Common.Dict.{Dict, get, put, remove}

-- the column `value`: "up", "down", a fill level, the decimal digits of a number,
-- the JSON text of a count, or another text
pub data Value : Type 0 where
  up down below warn crit : Value
  text : String → Value
  digits : ℕ → Value
  counted : ℕ → Value

pub record Row : Type 0 where
  pub value : Value
  pub last_alert_ts : Option ℕ

-- the table monitor_state, by scope and key
abbrev pub Store : Type 0
Store = Dict (String × String) Row

-- f"{address}:{pool_name}"
unfoldable pub pool_key : String → String → String
pool_key address pool = address ++ ":" ++ pool

unfoldable pub state_get : String → String → Store → Option Row
state_get scope key s = get (scope, key) s

abbrev pub alert_of : Option Row → Option ℕ
alert_of none = none
alert_of (some row) = row.last_alert_ts

-- `_state_set` keeps the time of the last alert unless it is given a new one
abbrev pub new_alert : Option Row → Option ℕ → Option ℕ
new_alert old none = alert_of old
new_alert old (some t) = some t

unfoldable pub state_set : String → String → Value → Option ℕ → Store → Store
state_set scope key v alert s =
    put (scope, key) (record { value = v; last_alert_ts = new_alert (get (scope, key) s) alert }) s

unfoldable pub state_delete : String → String → Store → Store
state_delete scope key s = remove (scope, key) s

-- `not ts`: no time, or 0
abbrev pub is_set : Option ℕ → Bool
is_set none = false
is_set (some t) = if nat_beq t 0 then false else true

unfoldable pub cooldown_ok : Option ℕ → ℕ → ℕ → Bool
cooldown_ok none cooldown now = true
cooldown_ok (some t) cooldown now = if nat_beq t 0 then true else leb (t + cooldown) now

abbrev pub capacity_alert_cooldown : ℕ
capacity_alert_cooldown = 12 * 3600

abbrev pub stale_alert_cooldown : ℕ
stale_alert_cooldown = 24 * 3600

abbrev pub error_alert_cooldown : ℕ
error_alert_cooldown = 6 * 3600
