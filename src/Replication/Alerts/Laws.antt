-- ===== src/Replication/Alerts/Laws.antt =====
-- The notifications of `_maybe_alert_locked` of app/replication_monitor.py about one pair over many
-- rounds.
use pve_zfs_tool.Common.{
  ℕ, ◌+◌, ◌<◌, ◌≡◌, refl, sym, Bool, true, false, Option, none, some, String, List, [], ◌∷◌, ◌++◌,
  all, ltb, arith, ◌==◌, string_eq, beq_refl, eq_iff, ◌&&◌,
}
use pve_zfs_tool.Common.Dict.{get, put, get-put}
use pve_zfs_tool.Monitor.{cooldown_ok}
use pve_zfs_tool.Replication.Pairs.{crit, Snapshot}
use pve_zfs_tool.Replication.Alerts.{
  Host, Row, Store, still, Note, state_key, headline_of, row_of, alert_in, is_source_muted,
  maybe_alert, alert_cooldown_seconds,
}

-- less than six hours before `now`
abbrev pub is_recent : (now : ℕ) → Option ℕ → Bool
is_recent now none = false
is_recent now (some t) = ltb now (t + alert_cooldown_seconds)

-- one check of the pair: the tool's hosts at the time, and what the check found
pub record Round : Type 0 where
  pub hosts : List Host
  pub now : ℕ
  pub snap : Snapshot

module _ (address path : String) where
  abbrev pub row : Store → Option Row
  row s = get (state_key address path) s

  row-put : (r : Row) (s : Store) → row (put (state_key address path) r s) ≡ some r
  row-put r s = ground (
    arith,
    get-put (state_key address path) (state_key address path) r s,
    beq_refl (state_key address path),
  )

  -- the time of the last notification about the pair after a round that sends these
  abbrev pub last_after : Option ℕ → List Note → Option ℕ
  last_after last [] = last
  last_after last (n ∷ ns) = last_after (some n.at_time) ns

  alert-maybe_alert :
      (hosts : List Host) (now : ℕ) (snap : Snapshot) (s : Store)
      → snap.config_path ≡ path
      → alert_in (row (maybe_alert hosts now address snap s).0)
        ≡ last_after (alert_in (row s)) (maybe_alert hosts now address snap s).1
  unfolding maybe_alert
  alert-maybe_alert hosts now snap s h =
      let kept = put (state_key address path) (row_of snap (alert_in (row s))) s in
      ground
        (arith, row-put (row_of snap (alert_in (row s))) s, row-put (row_of snap (some now)) kept)

  -- a crit that lasts is repeated six hours after the notification before it at the earliest
  abbrev pub spaced : Option ℕ → List Note → Bool
  spaced last [] = true
  spaced last (n ∷ ns) =
      elim n.headline [ still ↦ cooldown_ok last alert_cooldown_seconds n.at_time | _ ↦ true ]
      && spaced (some n.at_time) ns

  spaced-maybe_alert :
      (hosts : List Host) (now : ℕ) (snap : Snapshot) (s : Store) (more : List Note)
      → snap.config_path ≡ path
      → spaced (last_after (alert_in (row s)) (maybe_alert hosts now address snap s).1) more ≡ true
      → spaced (alert_in (row s)) ((maybe_alert hosts now address snap s).1 ++ more) ≡ true
  unfolding maybe_alert headline_of
  spaced-maybe_alert hosts now snap s more h k = ground arith

  -- A crit pair whose source is not muted has been notified of within six hours, whenever it is
  -- checked after the second 0.
  pub crit_reminded :
      (hosts : List Host) (now : ℕ) (snap : Snapshot) (s : Store)
      → snap.config_path ≡ path
      → snap.status ≡ crit
      → is_source_muted hosts snap ≡ false
      → 0 < now
      → is_recent now (alert_in (row (maybe_alert hosts now address snap s).0)) ≡ true
  unfolding maybe_alert headline_of cooldown_ok
  crit_reminded hosts now snap s h c m p =
      let kept = put (state_key address path) (row_of snap (alert_in (row s))) s in
      ground
        (arith, row-put (row_of snap (alert_in (row s))) s, row-put (row_of snap (some now)) kept)

  unfoldable pub watch : List Round → Store → Store × List Note
  watch [] s = (s, [])
  watch (r ∷ rs) s =
      let (s', a) = maybe_alert r.hosts r.now address r.snap s in
      let (s'', more) = watch rs s' in (s'', a ++ more)

  here :
      (r : Round) (rs : List Round)
      → all (λ q. q.snap.config_path == path) (r ∷ rs) ≡ true
      → r.snap.config_path ≡ path
  here r rs h = ground (arith, eq_iff r.snap.config_path path)

  -- Over the rounds of one pair, a message that it is still crit comes six hours after the message
  -- before it at the earliest; only changes of the status come sooner.
  pub watch-spaced :
      (rs : List Round) (s : Store)
      → all (λ r. r.snap.config_path == path) rs ≡ true
      → spaced (alert_in (row s)) (watch rs s).1 ≡ true
  unfolding watch
  watch-spaced [] s h = refl
  watch-spaced (r ∷ rs) s h =
      let s' = (maybe_alert r.hosts r.now address r.snap s).0 in
      let a = (maybe_alert r.hosts r.now address r.snap s).1 in
      spaced-maybe_alert r.hosts r.now r.snap s (watch rs s').1 (here r rs h) (
        rw (sym (alert-maybe_alert r.hosts r.now r.snap s (here r rs h)))
          (watch-spaced rs s' (ground arith)))
