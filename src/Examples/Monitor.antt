-- ===== src/Examples/Monitor.antt =====
-- Runs of the checks of app/monitor.py.
use pve_zfs_tool.Common.{
  Option, if◌then◌else◌, ℕ, ◌≡◌, refl, Bool, true, false, none, some, List, [], ◌∷◌, arith, String,
  beq_refl, pair_eq, string_eq, contains, filter, not, ◌&&◌, ◌==◌,
}
use pve_zfs_tool.Common.Dict.{get}
use pve_zfs_tool.Monitor.{Value, down, warn, Row, Store, pool_key, state_get}
use pve_zfs_tool.Monitor.Health.{pool_scopes, clear_vanished_pool_state}
use pve_zfs_tool.Monitor.Health.Messages.{
  health_row, rounds as rounds_of, announced, value_of, rounds-announced,
}
use pve_zfs_tool.Monitor.Health.Removal.{is_vanished, get-clear_vanished_pool_state}
use pve_zfs_tool.Monitor.Reachability.{Round, run, back_online}
use pve_zfs_tool.Monitor.Reachability.Alternation.{
  after, pending, row_of, messages_alternate, marked_phase_announced,
}
use pve_zfs_tool.Monitor.Capacity.Alerts.{watch, escalation_lost}
use pve_zfs_tool.Monitor.Topology.Announced.{
  layouts, layout_row, marked, called_for, layouts-called_for,
}
use pve_zfs_tool.PoolTopology.{Line, plain, special}
use pve_zfs_tool.PoolTopology.Print.{print_pool}

get_here : (k : String × String) (r : Row) → get k ((k, r) ∷ []) ≡ some r
unfolding get
get_here k r = rw (beq_refl k) refl

abbrev row_at : String → String → Value → ℕ → Store
row_at scope key v t = ((scope, key), record { value = v; last_alert_ts = some t }) ∷ []

here :
    (scope key : String) (v : Value) (t : ℕ)
    → state_get scope key (row_at scope key v t)
      ≡ some (record { value = v; last_alert_ts = some t })
unfolding state_get
here scope key v t = get_here (scope, key) (record { value = v; last_alert_ts = some t })

abbrev round : Bool → ℕ → Round
round answers t = record { reachable = answers; reprobe = false; standby = false; now = t }

abbrev rounds : List Round
rounds = round false 100 ∷ round true 700 ∷ round false 1300 ∷ []

empty_row : (scope key : String) → state_get scope key [] ≡ none
unfolding state_get get
empty_row scope key = refl

messages_alternate_example :
    after false (run 20 "10.0.0.1" rounds []).1
    ≡ some (pending (row_of "10.0.0.1" (run 20 "10.0.0.1" rounds []).0))
messages_alternate_example =
    messages_alternate 20 "10.0.0.1" rounds [] refl (empty_row "host" "10.0.0.1")

marked_phase_announced_example :
    (run 20 "10.0.0.1"
      (record { reachable = true; reprobe = false; standby = true; now = 200 }
        ∷ record { reachable = false; reprobe = false; standby = true; now = 300 }
        ∷ record { reachable = true; reprobe = false; standby = false; now = 400 }
        ∷ [])
      (row_at "host" "10.0.0.1" down 100)).1
    ≡ back_online ∷ []
marked_phase_announced_example =
    marked_phase_announced 20 "10.0.0.1" (row_at "host" "10.0.0.1" down 100) 100 200 300 400
      (here "host" "10.0.0.1" down 100) (omega arith)

abbrev warned : Store
warned = row_at "capacity" (pool_key "h" "rpool") warn 100

escalation_lost_example :
    (watch "h" "rpool"
      (80, 95)
      (record { cap = 96; now = 400 } ∷ record { cap = 99; now = 90000 } ∷ [])
      warned).1
    ≡ []
escalation_lost_example =
    escalation_lost "h" "rpool" (80, 95) (record { cap = 96; now = 400 })
      (record { cap = 99; now = 90000 } ∷ []) warned 100
      (here "capacity" (pool_key "h" "rpool") warn 100) (omega arith) (omega arith) refl

abbrev healths : List (ℕ × String)
healths = (100, "ONLINE") ∷ (200, "DEGRADED") ∷ (300, "DEGRADED") ∷ (400, "ONLINE") ∷ []

rounds-announced_example :
    (rounds_of "h" "rpool" healths []).1
    ≡ announced "h" "rpool" (value_of "h" "rpool" (health_row "h" "rpool" [])) healths
rounds-announced_example = rounds-announced "h" "rpool" healths [] refl

abbrev two_hosts : Store
two_hosts =
    (("pool_health", "my_host:old"), record { value = Value.text "ONLINE"; last_alert_ts = none })
    ∷ (
      ("pool_health", "myXhost:tank"),
      record { value = Value.text "ONLINE"; last_alert_ts = none },
    )
    ∷ []

get-clear_vanished_pool_state_example :
    state_get "pool_health" "myXhost:tank"
      (clear_vanished_pool_state "my_host" ("rpool" ∷ []) two_hosts).0
    ≡ (if contains {A = String} "pool_health" pool_scopes
          && is_vanished
              (pool_key "my_host" "")
              (filter (λ n. not (n == "")) ("rpool" ∷ []))
              "myXhost:tank"
        then none
        else state_get "pool_health" "myXhost:tank" two_hosts)
get-clear_vanished_pool_state_example =
    get-clear_vanished_pool_state "my_host" ("rpool" ∷ []) "pool_health" "myXhost:tank" two_hosts

-- a mirror, and the same pool with a bare special vdev added
abbrev mirrored : List Line
mirrored =
    print_pool "tank" (
      record { tier = plain; name = "mirror-0"; state = "ONLINE"; below = "sda" ∷ "sdb" ∷ [] } ∷ [])

abbrev with_special : List Line
with_special = print_pool "tank" (
    record { tier = plain; name = "mirror-0"; state = "ONLINE"; below = "sda" ∷ "sdb" ∷ [] }
    ∷ record { tier = special; name = "nvme0n1"; state = "ONLINE"; below = [] }
    ∷ [])

abbrev history : List (ℕ × Option (List Line))
history = (100, some mirrored) ∷ (200, some with_special) ∷ (300, some with_special) ∷ []

layouts-called_for_example :
    (layouts "h" "tank" history []).1
    ≡ called_for "h" "tank" (marked "h" "tank" (layout_row "h" "tank" [])) history
layouts-called_for_example = layouts-called_for "h" "tank" history []
