-- ===== src/Examples/Inventory.antt =====
-- Snapshots of two hosts (app/replication_inventory.py).
use mathlib.Core.List.{Memᴰ}
use pve_zfs_tool.Common.{
  ℕ, String, ◌≡◌, refl, ◌↔◌, true, false, List, [], ◌∷◌, arith, filter, any, ◌==◌, nat_eq,
  string_eq, pair_eq,
}
use pve_zfs_tool.Common.Scan.{skip}
use pve_zfs_tool.Inventory.UnionFind.Connected.{
  Connected, members, root, partition, partition-Connected,
}
use pve_zfs_tool.Inventory.Lineages.{
  Row, Place, is_migrate_snap, lineage_key, group_lineages, member_keys,
}
use pve_zfs_tool.Inventory.Lineages.Laws.{places, has_guid, unions, group_lineages-shared_guid}

abbrev keys : List ℕ
keys = 1 ∷ 2 ∷ 3 ∷ 4 ∷ []

abbrev pairs : List (ℕ × ℕ)
pairs = (1, 3) ∷ (3, 4) ∷ []

partition-Connected_example :
    (members (root pairs 1) (partition 3 keys pairs)
      ≡ filter (λ k. root pairs k == root pairs 1) keys)
    × (((root pairs 4 == root pairs 1) ≡ true) ↔ Connected pairs 4 1)
partition-Connected_example = partition-Connected 3 keys pairs 1 4 (omega arith)

abbrev row : String → String → Row
row dataset guid = record { dataset = dataset; snapshot = "daily-1"; guid = guid; creation = 100 }

abbrev per_host : List (String × List Row)
per_host =
    ("pve1", row "rpool/vm-101" "g1" ∷ row "rpool/vm-102" "g2" ∷ [])
    ∷ ("pve2", row "backup/vm-101" "g1" ∷ [])
    ∷ []

abbrev original : Place
original = record { host = "pve1"; row = row "rpool/vm-101" "g1" }

abbrev replica : Place
replica = record { host = "pve2"; row = row "backup/vm-101" "g1" }

no_migration :
    any (λ x. is_migrate_snap x.row.snapshot) (filter (has_guid "g1") (places per_host)) ≡ false
unfolding is_migrate_snap skip
no_migration = refl

group_lineages-shared_guid_example :
    (members (root (unions per_host) (lineage_key original)) (group_lineages per_host)
      ≡ filter
          (λ k. root (unions per_host) k == root (unions per_host) (lineage_key original))
          (member_keys per_host []))
    × ((root (unions per_host) (lineage_key replica)
          == root (unions per_host) (lineage_key original))
        ≡ true)
group_lineages-shared_guid_example =
    group_lineages-shared_guid per_host original replica (Memᴰ.head refl)
      (Memᴰ.tail (Memᴰ.tail (Memᴰ.head refl))) refl no_migration
