-- ===== src/Monitor/Reachability.antt =====
-- `check_host_reachability` and `confirm_offline` of app/monitor.py.
pub mod Alternation
use pve_zfs_tool.Common.{
  ℕ, String, Bool, true, false, Option, none, some, List, [], ◌∷◌, ◌++◌, ltb, if◌then◌else◌,
}
use pve_zfs_tool.Monitor.{Value, up, down, Row, Store, state_get, state_set, is_set}

pub record Host : Type 0 where
  pub address : String
  pub standby : Bool

-- `send_notification` with the state that pairs the two messages
pub data Note : Type 0 where
  host_offline back_online : Note

abbrev pub is_down : Value → Bool
is_down down = true
is_down _ = false

abbrev pub is_up : Value → Bool
is_up up = true
is_up _ = false

abbrev pub status : Bool → Value
status true = up
status false = down

-- `prev == new`
abbrev pub is_status : Bool → Value → Bool
is_status true v = is_up v
is_status false v = is_down v

-- the rest of the check, once the previous row is known
unfoldable pub on_known : Host → Bool → ℕ → Row → Store → Store × List Note
on_known host reachable now prev s =
    if is_status reachable prev.value
    then (s, [])
    else if reachable
    then (
      state_set "host" host.address up (some 0) s,
      if is_set prev.last_alert_ts then back_online ∷ [] else [],
    )
    else (state_set "host" host.address down (some now) s, host_offline ∷ [])

unfoldable pub check_host_reachability : Host → Bool → ℕ → Store → Store × List Note
unfolding on_known
check_host_reachability host reachable now s =
    if host.standby
    then (state_set "host" host.address (status reachable) none s, [])
    else elim (state_get "host" host.address s) [
      | none ↦ (state_set "host" host.address (status reachable) none s, [])
      | some prev ↦ on_known host reachable now prev s
    ]

abbrev pub was_down : Option Row → Bool
was_down none = false
was_down (some row) = is_down row.value

-- True if the host answers after all; `reprobe` is false where the probe raises
unfoldable pub confirm_offline : ℕ → Host → Bool → Store → Bool
confirm_offline confirm_sec host reprobe s =
    if ltb 0 confirm_sec
    then (if was_down (state_get "host" host.address s) then false else reprobe)
    else false

-- one round of the sampler: the probe, the second probe, and the check
pub record Round : Type 0 where
  pub reachable : Bool
  pub reprobe : Bool
  pub standby : Bool
  pub now : ℕ

unfoldable pub sample : ℕ → String → Round → Store → Store × List Note
unfolding confirm_offline
sample confirm_sec address r s =
    let host : Host = record { address = address; standby = r.standby } in
    let up = if r.reachable then true else confirm_offline confirm_sec host r.reprobe s in
    check_host_reachability host up r.now s

unfoldable pub run : ℕ → String → List Round → Store → Store × List Note
run confirm_sec address [] s = (s, [])
run confirm_sec address (r ∷ rs) s =
    let (s', notes) = sample confirm_sec address r s in
    let (s'', more) = run confirm_sec address rs s' in (s'', notes ++ more)
