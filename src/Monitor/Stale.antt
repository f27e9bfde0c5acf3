-- ===== src/Monitor/Stale.antt =====
-- `check_auto_snapshots` of app/monitor.py from the analysis on: for each label, how many datasets
-- it lists as stale. The analysis itself and the uptime are what the host answers.
pub mod Spaced
use pve_zfs_tool.Common.{
  ℕ, ◌*◌, String, Bool, true, false, Option, none, some, List, [], ◌∷◌, ◌++◌, ltb, nat_beq, ◌==◌,
  string_eq, if◌then◌else◌,
}
use pve_zfs_tool.Common.Dict.{Dict, get}
use pve_zfs_tool.Monitor.{
  Value, Row, Store, pool_key, state_get, state_set, state_delete, alert_of, cooldown_ok,
  stale_alert_cooldown,
}

abbrev pub stale_thresholds : List (String × ℕ)
stale_thresholds =
    ("frequent", 2 * 3600)
    ∷ ("hourly", 4 * 3600)
    ∷ ("daily", 30 * 3600)
    ∷ ("weekly", 9 * 86400)
    ∷ ("monthly", 33 * 86400)
    ∷ []

pub record StaleNote : Type 0 where
  pub label : String
  pub datasets : ℕ
  pub at_time : ℕ

-- `uptime is not None and uptime < threshold`
abbrev pub too_early : Option ℕ → ℕ → Bool
too_early none threshold = false
too_early (some up) threshold = ltb up threshold

abbrev pub stale_of : Option ℕ → ℕ
stale_of none = 0
stale_of (some n) = n

-- the body of the loop, for a label with so many stale datasets
unfoldable pub check_label : String → ℕ → Option ℕ → String × ℕ → ℕ → Store → Store × List StaleNote
check_label address now uptime (label, threshold) stale s =
    let key = pool_key address label in
    let last = alert_of (state_get "stale_snap" key s) in
    if too_early uptime threshold
    then (s, [])
    else if nat_beq stale 0
    then (state_delete "stale_snap" key s, [])
    else if cooldown_ok last stale_alert_cooldown now
    then (
      state_set "stale_snap" key (Value.counted stale) (some now) s,
      record { label = label; datasets = stale; at_time = now } ∷ [],
    )
    else (state_set "stale_snap" key (Value.counted stale) last s, [])

unfoldable pub check_labels :
    String → ℕ → Option ℕ → List (String × ℕ) → Dict String ℕ → Store → Store × List StaleNote
check_labels address now uptime [] per_label s = (s, [])
check_labels address now uptime ((label, threshold) ∷ ls) per_label s =
    let (s', a) =
      check_label address now uptime (label, threshold) (stale_of (get label per_label)) s in
    let (s'', more) = check_labels address now uptime ls per_label s' in (s'', a ++ more)

unfoldable pub check_auto_snapshots :
    String → ℕ → Option ℕ → Dict String ℕ → Store → Store × List StaleNote
check_auto_snapshots address now uptime per_label s =
    check_labels address now uptime stale_thresholds per_label s
