-- ===== src/Inventory/Copies.antt =====
-- The copies that `group_lineages` of app/replication_inventory.py lists for each lineage, and the
-- matrix over what the hosts were asked for.
pub mod Laws
use pve_zfs_tool.Common.{
  ℕ, String, ◌≡◌, refl, Bool, true, false, not, ◌&&◌, ◌||◌, Option, none, some, List, [], ◌∷◌, ◌++◌,
  map, filter, any, leb, arith, ◌==◌, string_eq, pair_eq, if◌then◌else◌, length, contains, eq_iff,
  beq_refl,
}
use pve_zfs_tool.Common.Dict.{Dict, put, get}
use pve_zfs_tool.Common.Sort.{sorted, any-sorted, length-sorted}
use pve_zfs_tool.Common.Text.{str_le}
use pve_zfs_tool.SnapTags.{extract_tag, distinct}
use pve_zfs_tool.Inventory.Compare.{Copy}
use pve_zfs_tool.Inventory.Lineages.{Row, Key, group_lineages}
use pve_zfs_tool.Inventory.Matrix.{Entry, Guest, Pair, Autosnap, build_matrix}

-- `members[key]`
unfoldable pub rows_at : Key → List (String × List Row) → List Row
rows_at key [] = []
rows_at key ((host, rows) ∷ hosts) =
    let rest = rows_at key hosts in
    if host == key.0 then filter (λ r. r.dataset == key.1) rows ++ rest else rest

abbrev pub creation_le : Row → Row → Bool
creation_le a b = leb a.creation b.creation

abbrev newest_of : List Row → Option ℕ → Option ℕ
newest_of [] t = t
newest_of (r ∷ rs) t = newest_of rs (some r.creation)

-- `{s["guid"]: extract_tag(s["snapshot"]) for s in snaps}`
unfoldable pub tags_by_guid : List Row → Dict String (Option String) → Dict String (Option String)
tags_by_guid [] d = d
tags_by_guid (r ∷ rs) d = tags_by_guid rs (put r.guid (extract_tag r.snapshot) d)

-- `{l for l in by_guid.values() if l}`, with each label as often as a guid has it
abbrev pub labels_in : Dict String (Option String) → List String
labels_in [] = []
labels_in ((g, none) ∷ d) = labels_in d
labels_in ((g, some l) ∷ d) = if l == "" then labels_in d else l ∷ labels_in d

unfoldable pub copy_of : Key → List Row → Copy
copy_of (host, dataset) rows =
    let snaps = sorted creation_le rows in
    let by_guid = tags_by_guid snaps [] in
    record {
      host = host;
      dataset = dataset;
      snapshot_count = length snaps;
      newest = newest_of snaps none;
      guids = distinct (map (λ r. r.guid) snaps);
      by_guid = by_guid;
      labels = distinct (labels_in by_guid);
    }

-- the order of the keys as tuples
abbrev pub key_le : Key → Key → Bool
key_le (h, d) (k, e) = if h == k then str_le d e else str_le h k

unfoldable pub copies_of : List (String × List Row) → Dict Key (List Key) → List (List Copy)
copies_of per_host [] = []
copies_of per_host ((root, ks) ∷ grouped) =
    map (λ k. copy_of k (rows_at k per_host)) (sorted key_le ks) ∷ copies_of per_host grouped

unfoldable pub lineages_of : List (String × List Row) → List (List Copy)
lineages_of per_host = copies_of per_host (group_lineages per_host)

-- the matrix over the rows of all hosts
unfoldable pub matrix_of :
    List (String × List Row) → List (String × List Guest) → List Pair → Autosnap → List Entry
matrix_of per_host = build_matrix (lineages_of per_host)
