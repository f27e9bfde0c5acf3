-- ===== src/PoolTopology/Findings.antt =====
-- `redundancy_findings` and `summarize` of app/pool_topology.py.
use pve_zfs_tool.Common.{
  String, Bool, true, false, not, ◌||◌, List, [], ◌∷◌, ◌++◌, if◌then◌else◌, any,
}
use pve_zfs_tool.Common.Dict.{Dict}
use pve_zfs_tool.PoolTopology.{Tier, plain, cache, special, dedup, spare, Vdev, is_single, vdevs_of}

pub data Severity : Type 0 where
  ok warn crit : Severity

pub record Finding : Type 0 where
  pub pool : String
  pub vdev : String
  pub tier : Tier
  pub severity : Severity

-- `FATAL_TIERS`
abbrev pub is_fatal : Tier → Bool
is_fatal plain = true
is_fatal special = true
is_fatal dedup = true
is_fatal _ = false

abbrev pub is_passive : Tier → Bool
is_passive cache = true
is_passive spare = true
is_passive _ = false

-- the loop over the vdevs of a pool
unfoldable pub findings_of : String → List Vdev → List Finding
findings_of pool [] = []
findings_of pool (v ∷ vs) =
    let rest = findings_of pool vs in
    if not (is_single v.redundancy) || is_passive v.tier
    then rest
    else record {
      pool = pool;
      vdev = v.name;
      tier = v.tier;
      severity = (if is_fatal v.tier then crit else warn);
    }
      ∷ rest

-- the loop over the pools, which come sorted by name
unfoldable pub redundancy_findings : List (String × List Vdev) → List Finding
redundancy_findings [] = []
redundancy_findings ((pool, vs) ∷ topology) = findings_of pool vs ++ redundancy_findings topology

abbrev pub is_crit : Finding → Bool
is_crit f = elim f.severity [ crit ↦ true | _ ↦ false ]

pub record Summary : Type 0 where
  pub vdevs : List Vdev
  pub findings : List Finding
  pub worst : Severity

abbrev pub worst_of : List Finding → Severity
worst_of fs = if any is_crit fs then crit else elim fs [ [] ↦ ok | f ∷ gs ↦ warn ]

unfoldable pub summarize : Dict String (List Vdev) → String → Summary
summarize topology pool =
    let fs = redundancy_findings ((pool, vdevs_of pool topology) ∷ []) in
    record { vdevs = vdevs_of pool topology; findings = fs; worst = worst_of fs }
