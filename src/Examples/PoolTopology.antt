-- ===== src/Examples/PoolTopology.antt =====
-- The tree of a pool with a mirror and a bare special vdev (app/pool_topology.py).
use pve_zfs_tool.Common.{◌≡◌, refl, none, List, [], ◌∷◌, ◌++◌, map, string_eq}
use pve_zfs_tool.Common.Dict.{get, put}
use pve_zfs_tool.PoolTopology.{
  plain, special, Line, blank, pool_line, parse_topology, steps, step, vdevs_of,
}
use pve_zfs_tool.PoolTopology.Print.{Node, vdev_of, print_pool}
use pve_zfs_tool.PoolTopology.RoundTrip.{parse_topology-print_pool}

abbrev nodes : List Node
nodes =
    record { tier = plain; name = "mirror-0"; state = "ONLINE"; below = "sda" ∷ "sdb" ∷ [] }
    ∷ record { tier = special; name = "nvme0n1"; state = "ONLINE"; below = [] }
    ∷ []

abbrev above : List Line
above = pool_line "rpool" ∷ blank ∷ []

fresh_tank : get "tank" (parse_topology above) ≡ none
unfolding parse_topology steps step get put
fresh_tank = refl

parse_topology-print_pool_example :
    vdevs_of "tank" (parse_topology (above ++ print_pool "tank" nodes)) ≡ map vdev_of nodes
parse_topology-print_pool_example =
    parse_topology-print_pool "tank" nodes above refl refl refl fresh_tank
