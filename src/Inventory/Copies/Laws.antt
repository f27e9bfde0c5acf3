-- ===== src/Inventory/Copies/Laws.antt =====
-- What a copy of app/replication_inventory.py says of its rows.
use pve_zfs_tool.Common.{
  String, ◌≡◌, refl, ◌∙◌, List, [], ◌∷◌, map, any, arith, ◌==◌, string_eq, length, contains,
}
use pve_zfs_tool.Common.Sort.{sorted, any-sorted, length-sorted}
use pve_zfs_tool.SnapTags.Laws.{contains-distinct}
use pve_zfs_tool.Inventory.Lineages.{Row, Key}
use pve_zfs_tool.Inventory.Copies.{creation_le, copy_of}

any-guid :
    (g : String) (rows : List Row)
    → contains g (map (λ r. r.guid) rows) ≡ any (λ r. g == r.guid) rows
any-guid g [] = refl
any-guid g (r ∷ rs) = ground (arith, any-guid g rs)

-- A copy counts its rows, and has exactly their guids, each once.
pub copy_of-rows :
    (key : Key) (rows : List Row) (g : String)
    → ((copy_of key rows).snapshot_count ≡ length rows)
      × (contains g (copy_of key rows).guids ≡ any (λ r. g == r.guid) rows)
unfolding copy_of
copy_of-rows (host, dataset) rows g = (
  length-sorted creation_le rows,
  contains-distinct g (map (λ r. r.guid) (sorted creation_le rows))
      ∙ any-guid g (sorted creation_le rows)
      ∙ any-sorted creation_le (λ r. g == r.guid) rows,
)
