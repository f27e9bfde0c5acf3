-- ===== src/Monitor/Stale/Spaced.antt =====
-- The messages of `check_auto_snapshots` of app/monitor.py about one label over many rounds.
use pve_zfs_tool.Common.{
  ℕ, String, ◌≡◌, Option, none, some, List, [], ◌∷◌, ◌++◌, arith, nat_beq, if◌then◌else◌, pair_eq,
  string_eq, beq_refl,
}
use pve_zfs_tool.Common.Dict.{get-remove}
use pve_zfs_tool.Monitor.{
  Value, Row, Store, pool_key, state_get, state_set, state_delete, alert_of, cooldown_ok,
  stale_alert_cooldown,
}
use pve_zfs_tool.Monitor.Rows.{state_get-set_self}
use pve_zfs_tool.Monitor.Stale.{StaleNote, too_early, check_label}

pub record Sample : Type 0 where
  pub now : ℕ
  pub uptime : Option ℕ
  pub stale : ℕ

module _ (address label : String) (threshold : ℕ) where
  abbrev pub stale_row : Store → Option Row
  stale_row s = state_get "stale_snap" (pool_key address label) s

  unfoldable pub samples : List Sample → Store → Store × List StaleNote
  samples [] s = (s, [])
  samples (x ∷ xs) s =
      let (s', a) = check_label address x.now x.uptime (label, threshold) x.stale s in
      let (s'', more) = samples xs s' in (s'', a ++ more)

  -- the messages that a history calls for, from the time of the last one
  abbrev pub due_notes : Option ℕ → List Sample → List StaleNote
  due_notes last [] = []
  due_notes last (x ∷ xs) =
      let kept = due_notes last xs in
      let cleared = due_notes none xs in
      let sent = due_notes (some x.now) xs in
      if too_early x.uptime threshold
      then kept
      else if nat_beq x.stale 0
      then cleared
      else if cooldown_ok last stale_alert_cooldown x.now
      then record { label = label; datasets = x.stale; at_time = x.now } ∷ sent
      else kept

  row-deleted :
      (s : Store) → stale_row (state_delete "stale_snap" (pool_key address label) s) ≡ none
  unfolding state_get state_delete
  row-deleted s = ground (
    arith,
    get-remove ("stale_snap", pool_key address label) ("stale_snap", pool_key address label) s,
    beq_refl {A = String × String} ("stale_snap", pool_key address label),
  )

  -- The messages about a label are those that its history calls for: none before the host has been
  -- up for the label's threshold, one where datasets are stale and none was sent for a day, and a
  -- round without stale datasets forgets the last one.
  pub samples-due_notes :
      (xs : List Sample) (s : Store) → (samples xs s).1 ≡ due_notes (alert_of (stale_row s)) xs
  unfolding samples check_label
  samples-due_notes [] s = ground arith
  samples-due_notes (x ∷ xs) s =
      let key = pool_key address label in
      let last = alert_of (stale_row s) in
      ground (
        arith,
        samples-due_notes xs s,
        samples-due_notes xs (state_delete "stale_snap" key s),
        row-deleted s,
        samples-due_notes xs (state_set "stale_snap" key (Value.counted x.stale) (some x.now) s),
        state_get-set_self "stale_snap" key (Value.counted x.stale) (some x.now) s,
        samples-due_notes xs (state_set "stale_snap" key (Value.counted x.stale) last s),
        state_get-set_self "stale_snap" key (Value.counted x.stale) last s,
      )
