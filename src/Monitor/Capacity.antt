-- ===== src/Monitor/Capacity.antt =====
-- `capacity_thresholds`, `capacity_level`, `should_alert_capacity` and `check_capacity` of
-- app/monitor.py. Fill levels are whole percents.
pub mod Alerts
use pve_zfs_tool.Common.{
  ℕ, ◌+◌, ◌*◌, String, Bool, true, false, ◌&&◌, ◌||◌, Option, none, some, List, [], ◌∷◌, ◌++◌, ltb,
  leb, nat_beq, ◌==◌, string_eq, if◌then◌else◌,
}
use pve_zfs_tool.Backups.States.{Setting, read_thresholds, clamp_thresholds}
use pve_zfs_tool.Monitor.{
  Value, below, warn, crit, Row, Store, pool_key, state_get, state_set, alert_of, cooldown_ok,
  capacity_alert_cooldown,
}

unfoldable pub capacity_thresholds : Setting → Setting → ℕ × ℕ
unfolding read_thresholds clamp_thresholds
capacity_thresholds w c = clamp_thresholds 1 100 (read_thresholds w c 70 80)

-- `_LEVEL_ORDER`; none for a value that is no level
abbrev pub level_order : Value → Option ℕ
level_order below = some 0
level_order warn = some 1
level_order crit = some 2
level_order _ = none

unfoldable pub capacity_level : ℕ → ℕ → ℕ → Value
capacity_level cap warn_pct crit_pct =
    if leb crit_pct cap then crit else if leb warn_pct cap then warn else below

-- `_LEVEL_ORDER[now_level] > _LEVEL_ORDER[prev_level]`, an unknown previous level alerting
abbrev pub rises : Option ℕ → Option ℕ → Bool
rises none now_order = true
rises (some p) none = false
rises (some p) (some n) = ltb p n

abbrev pub is_below : Value → Bool
is_below below = true
is_below _ = false

abbrev pub order_of : Option Row → Option ℕ
order_of none = none
order_of (some row) = level_order row.value

unfoldable pub should_alert_capacity : Option Row → Value → Bool
should_alert_capacity prev now_level =
    if is_below now_level then false else rises (order_of prev) (level_order now_level)

pub record Alert : Type 0 where
  pub pool : String
  pub level : Value
  pub at_time : ℕ

-- the body of the loop, for a pool whose fill percentage could be read
unfoldable pub check_pool : String → ℕ × ℕ → String → ℕ → ℕ → Store → Store × List Alert
unfolding should_alert_capacity
check_pool address (warn_pct, crit_pct) pool cap now s =
    let key = pool_key address pool in
    let prev = state_get "capacity" key s in
    let level = capacity_level cap warn_pct crit_pct in
    if should_alert_capacity prev level && cooldown_ok (alert_of prev) capacity_alert_cooldown now
    then (
      state_set "capacity" key level (some now) s,
      record { pool = pool; level = level; at_time = now } ∷ [],
    )
    else (state_set "capacity" key level none s, [])

-- a row of the pool listing; none where `cap` is missing or no number
pub record Pool : Type 0 where
  pub name : String
  pub cap : Option ℕ

abbrev pub check_listed : String → ℕ × ℕ → ℕ → Pool → Store → Store × List Alert
check_listed address th now p s =
    if p.name == ""
    then (s, [])
    else elim p.cap [ none ↦ (s, []) | some cap ↦ check_pool address th p.name cap now s ]

unfoldable pub check_capacity : String → ℕ × ℕ → ℕ → List Pool → Store → Store × List Alert
check_capacity address th now [] s = (s, [])
check_capacity address th now (p ∷ ps) s =
    let (s', a) = check_listed address th now p s in
    let (s'', more) = check_capacity address th now ps s' in (s'', a ++ more)
