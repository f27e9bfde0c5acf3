-- ===== src/Monitor/Topology/AtRisk.antt =====
-- Which vdevs `check_pool_topology` of app/monitor.py reports: those whose loss loses the pool.
use Prim.Native.String.{◌++◌ as ◌+++◌}
use mathlib.Core.List.{map-map}
use pve_zfs_tool.Common.{
  String, ◌≡◌, refl, ap, sym, ◌∙◌, Bool, Bool-cases, inl, inr, beq_refl, eq_iff, true, false, ◌&&◌,
  List, [], ◌∷◌, ◌++◌, map, arith, ◌==◌, string_eq, if◌then◌else◌, filter, filter-append,
}
use pve_zfs_tool.Common.Sort.{sorted}
use pve_zfs_tool.Common.Text.{str_le}
use pve_zfs_tool.PoolTopology.{
  Tier, plain, log, cache, special, dedup, spare, Line, Vdev, Redundancy, mirror, draid, single,
  raidz, parse_topology,
}
use pve_zfs_tool.PoolTopology.Findings.{Finding, crit, is_crit, findings_of, redundancy_findings}
use pve_zfs_tool.Monitor.Topology.{
  LayoutNote, marker_of, layout_note, crit_findings, tier_name, tier_vdev, join, by_name,
}

-- one device alone, in a tier that the pool cannot be read without
abbrev pub is_alone : Redundancy → Bool
is_alone mirror = false
is_alone draid = false
is_alone single = true
is_alone (raidz n) = false

abbrev pub holds_data : Tier → Bool
holds_data plain = true
holds_data log = false
holds_data cache = false
holds_data special = true
holds_data dedup = true
holds_data spare = false

-- the pool's vdevs at risk
unfoldable pub at_risk : String → List (String × List Vdev) → List Vdev
at_risk pool [] = []
at_risk pool ((p, vs) ∷ topology) =
    let rest = at_risk pool topology in
    if p == pool then filter (λ v. is_alone v.redundancy && holds_data v.tier) vs ++ rest else rest

unfoldable pub risks : String → List Line → List Vdev
risks pool status = at_risk pool (sorted by_name (parse_topology status))

-- the fingerprint of the vdevs at risk, and the message that names them
unfoldable pub risk_marker : String → List Line → String
risk_marker pool status =
    join (sorted str_le (map (λ v. tier_name v.tier +++ ":" +++ v.name) (risks pool status)))

unfoldable pub risk_note : String → List Line → List LayoutNote
risk_note pool status = record { pool = pool; vdevs = map (λ v. v.name) (risks pool status) } ∷ []

abbrev finding_of : String → Vdev → Finding
finding_of pool v = record { pool = pool; vdev = v.name; tier = v.tier; severity = crit }

abbrev of_pool : String → Finding → Bool
of_pool pool f = is_crit f && (f.pool == pool)

abbrev exposed : Vdev → Bool
exposed v = is_alone v.redundancy && holds_data v.tier

findings_of_self :
    (pool : String) (vs : List Vdev)
    → filter (of_pool pool) (findings_of pool vs) ≡ map (finding_of pool) (filter exposed vs)
unfolding findings_of
findings_of_self pool [] = refl
findings_of_self pool (v ∷ vs) = ground (arith, findings_of_self pool vs, beq_refl pool)

findings_of_other :
    (pool p : String) (vs : List Vdev)
    → (p == pool) ≡ false
    → filter (of_pool pool) (findings_of p vs) ≡ []
unfolding findings_of
findings_of_other pool p [] h = refl
findings_of_other pool p (v ∷ vs) h = ground (arith, findings_of_other pool p vs h)

map-append : (f : Vdev → Finding) (xs ys : List Vdev) → map f (xs ++ ys) ≡ map f xs ++ map f ys
map-append f [] ys = refl
map-append f (x ∷ xs) ys = ap (λ r. f x ∷ r) (map-append f xs ys)

findings-at_risk :
    (pool : String) (topology : List (String × List Vdev))
    → filter (of_pool pool) (redundancy_findings topology)
      ≡ map (finding_of pool) (at_risk pool topology)
unfolding redundancy_findings at_risk
findings-at_risk pool [] = refl
findings-at_risk pool ((p, vs) ∷ topology) = elim (Bool-cases (p == pool)) [
  | inl y ↦
      rw (y, filter-append (of_pool pool) (findings_of p vs) (redundancy_findings topology))
        (ap
            (λ q.
              filter (of_pool pool) (findings_of q vs)
              ++ filter (of_pool pool) (redundancy_findings topology))
            ((eq_iff p pool).0 y)
          ∙ rw (findings_of_self pool vs, findings-at_risk pool topology)
              (sym (map-append (finding_of pool) (filter exposed vs) (at_risk pool topology))))
  | inr n ↦
      rw
        (
          n,
          filter-append (of_pool pool) (findings_of p vs) (redundancy_findings topology),
          findings_of_other pool p vs n,
        )
        (findings-at_risk pool topology)
]

crit_findings-risks :
    (pool : String) (status : List Line)
    → crit_findings pool status ≡ map (finding_of pool) (risks pool status)
unfolding crit_findings risks
crit_findings-risks pool status = findings-at_risk pool (sorted by_name (parse_topology status))

pub marker_of-risk_marker :
    (pool : String) (status : List Line) → marker_of pool status ≡ risk_marker pool status
unfolding marker_of risk_marker
marker_of-risk_marker pool status =
    ap (λ fs. join (sorted str_le (map tier_vdev fs))) (crit_findings-risks pool status)
    ∙ ap (λ xs. join (sorted str_le xs)) (map-map tier_vdev (finding_of pool) (risks pool status))

pub layout_note-risk_note :
    (pool : String) (status : List Line) → layout_note pool status ≡ risk_note pool status
unfolding risk_note
layout_note-risk_note pool status =
    ap (λ xs. record { pool = pool; vdevs = xs } ∷ [])
      (ap (map (λ f. f.vdev)) (crit_findings-risks pool status)
        ∙ map-map (λ f. f.vdev) (finding_of pool) (risks pool status))
