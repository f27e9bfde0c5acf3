-- ===== src/Monitor/Topology/Announced.antt =====
-- The messages of `check_pool_topology` of app/monitor.py over many rounds.
use pve_zfs_tool.Common.{
  ℕ, String, ◌≡◌, Option, none, some, List, [], ◌∷◌, ◌++◌, arith, ◌==◌, string_eq, if◌then◌else◌,
}
use pve_zfs_tool.Monitor.{Value, Row, Store, pool_key, state_get, state_set}
use pve_zfs_tool.Monitor.Rows.{state_get-set_self}
use pve_zfs_tool.PoolTopology.{Line}
use pve_zfs_tool.Monitor.Topology.{LayoutNote, marker_of, has_marker, check_layout}
use pve_zfs_tool.Monitor.Topology.AtRisk.{
  risk_marker, risk_note, marker_of-risk_marker, layout_note-risk_note,
}

module _ (address pool : String) where
  abbrev pub layout_row : Store → Option Row
  layout_row s = state_get "pool_topology" (pool_key address pool) s

  -- the rounds with their times and the pool's status in each
  unfoldable pub layouts : List (ℕ × Option (List Line)) → Store → Store × List LayoutNote
  layouts [] s = (s, [])
  layouts ((now, st) ∷ sts) s =
      let (s', a) = check_layout address now pool st s in
      let (s'', more) = layouts sts s' in (s'', a ++ more)

  abbrev pub marked : Option Row → Option Value
  marked none = none
  marked (some row) = some row.value

  -- the messages that a history of layouts calls for, from the fingerprint before it
  abbrev pub called_for : Option Value → List (ℕ × Option (List Line)) → List LayoutNote
  called_for prev [] = []
  called_for prev ((now, none) ∷ sts) = called_for prev sts
  called_for none ((now, some status) ∷ sts) =
      called_for (some (Value.text (risk_marker pool status))) sts
  called_for (some prev) ((now, some status) ∷ sts) =
      let same = called_for (some prev) sts in
      let changed = called_for (some (Value.text (risk_marker pool status))) sts in
      if has_marker (risk_marker pool status) prev
      then same
      else if risk_marker pool status == ""
      then changed
      else risk_note pool status ++ changed

  -- The messages of all rounds are those that the history of layouts calls for. A vdev is at risk
  -- if it is one device alone in the data, special or dedup tier, and the fingerprint of a layout
  -- lists the tiers and names of the pool's vdevs at risk, sorted. There is no message for the
  -- first layout of a pool, for one whose fingerprint stays, or for one whose fingerprint is empty,
  -- and for each change to another fingerprint one that names the vdevs at risk.
  pub layouts-called_for :
      (sts : List (ℕ × Option (List Line))) (s : Store)
      → (layouts sts s).1 ≡ called_for (marked (layout_row s)) sts
  unfolding layouts check_layout
  layouts-called_for [] s = ground arith
  layouts-called_for ((now, none) ∷ sts) s = ground (arith, layouts-called_for sts s)
  layouts-called_for ((now, some status) ∷ sts) s =
      let s' =
        state_set "pool_topology" (pool_key address pool) (Value.text (marker_of pool status))
          (some now) s in
      ground (
        arith,
        layouts-called_for sts s,
        layouts-called_for sts s',
        marker_of-risk_marker pool status,
        layout_note-risk_note pool status,
        state_get-set_self "pool_topology" (pool_key address pool)
            (Value.text (marker_of pool status)) (some now) s,
      )
