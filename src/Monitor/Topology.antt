-- ===== src/Monitor/Topology.antt =====
-- `check_pool_topology` of app/monitor.py, over the trees that app/pool_topology.py reads.
pub mod Announced
pub mod AtRisk
use Prim.Native.String.{◌++◌ as ◌+++◌}
use pve_zfs_tool.Common.{
  ℕ, String, Bool, true, false, ◌&&◌, ◌||◌, Option, none, some, List, [], ◌∷◌, ◌++◌, map, ◌==◌,
  string_eq, if◌then◌else◌, filter,
}
use pve_zfs_tool.Common.Dict.{Dict}
use pve_zfs_tool.Common.Sort.{sorted}
use pve_zfs_tool.Common.Text.{str_le}
use pve_zfs_tool.PoolTopology.{
  Tier, plain, log, cache, special, dedup, spare, Line, Vdev, parse_topology,
}
use pve_zfs_tool.PoolTopology.Findings.{Finding, is_crit, redundancy_findings}
use pve_zfs_tool.Monitor.{Value, Store, pool_key, state_get, state_set}

abbrev pub tier_name : Tier → String
tier_name plain = "data"
tier_name log = "log"
tier_name cache = "cache"
tier_name special = "special"
tier_name dedup = "dedup"
tier_name spare = "spare"

abbrev pub tier_vdev : Finding → String
tier_vdev f = tier_name f.tier +++ ":" +++ f.vdev

-- `",".join(xs)`
unfoldable pub join : List String → String
join [] = ""
join (x ∷ []) = x
join (x ∷ y ∷ xs) = x +++ "," +++ join (y ∷ xs)

abbrev pub by_name : String × List Vdev → String × List Vdev → Bool
by_name p q = str_le p.0 q.0

unfoldable pub crit_findings : String → List Line → List Finding
crit_findings pool status =
    filter (λ f. is_crit f && (f.pool == pool))
      (redundancy_findings (sorted by_name (parse_topology status)))

-- the fingerprint of the risk
unfoldable pub marker_of : String → List Line → String
marker_of pool status = join (sorted str_le (map tier_vdev (crit_findings pool status)))

-- the pool and the vdevs that are named
pub record LayoutNote : Type 0 where
  pub pool : String
  pub vdevs : List String

abbrev pub has_marker : String → Value → Bool
has_marker m v = elim v [ Value.text u ↦ u == m | _ ↦ false ]

abbrev pub layout_note : String → List Line → List LayoutNote
layout_note pool status =
    record { pool = pool; vdevs = map (λ f. f.vdev) (crit_findings pool status) } ∷ []

-- the body of the loop; none where there is no status text
unfoldable pub check_layout :
    String → ℕ → String → Option (List Line) → Store → Store × List LayoutNote
check_layout address now pool none s = (s, [])
check_layout address now pool (some status) s =
    let recorded =
      state_set "pool_topology" (pool_key address pool) (Value.text (marker_of pool status))
        (some now) s in
    elim (state_get "pool_topology" (pool_key address pool) s) [
      | none ↦ (recorded, [])
      | some prev ↦
          if has_marker (marker_of pool status) prev.value
          then (s, [])
          else if marker_of pool status == ""
          then (recorded, [])
          else (recorded, layout_note pool status)
    ]

unfoldable pub check_pool_topology :
    String → ℕ → Dict String (Option (List Line)) → Store → Store × List LayoutNote
check_pool_topology address now [] s = (s, [])
check_pool_topology address now ((pool, status) ∷ ps) s =
    let (s', a) = check_layout address now pool status s in
    let (s'', more) = check_pool_topology address now ps s' in (s'', a ++ more)
