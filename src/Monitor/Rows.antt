-- ===== src/Monitor/Rows.antt =====
-- The rows of monitor_state that one write or delete leaves (app/monitor.py).
use pve_zfs_tool.Common.{
  ℕ, String, ◌≡◌, ◌≢◌, Option, some, arith, pair_eq, beq_refl, beq_ne, string_eq,
}
use pve_zfs_tool.Common.Dict.{get-put, get}
use pve_zfs_tool.Monitor.{Value, Row, Store, state_get, state_set, new_alert}

module _ (scope key : String) (v : Value) (alert : Option ℕ) (s : Store) where
  abbrev written : Row
  written = record { value = v; last_alert_ts = new_alert (state_get scope key s) alert }

  pub state_get-set_self : state_get scope key (state_set scope key v alert s) ≡ some written
  unfolding state_get state_set
  state_get-set_self = ground (
    arith,
    get-put (scope, key) (scope, key)
        (record { value = v; last_alert_ts = new_alert (get (scope, key) s) alert }) s,
    beq_refl {A = String × String} (scope, key),
  )

  pub state_get-set_ne :
      (scope' key' : String)
      → ◌≢◌ {A = String × String} (scope, key) (scope', key')
      → state_get scope' key' (state_set scope key v alert s) ≡ state_get scope' key' s
  unfolding state_get state_set
  state_get-set_ne scope' key' h = ground (
    arith,
    get-put (scope', key') (scope, key)
        (record { value = v; last_alert_ts = new_alert (get (scope, key) s) alert }) s,
    beq_ne {A = String × String} (scope, key) (scope', key') h,
  )
