-- ===== src/Inventory/Lineages.antt =====
-- `build_guid_index` and `group_lineages` of app/replication_inventory.py, to the grouping of the
-- keys (host, dataset). The rows are those that `parse_snapshot_guids` read.
pub mod Laws
use pve_zfs_tool.Common.{
  ℕ, suc, String, Bool, true, false, Option, none, some, List, [], ◌∷◌, ◌++◌, ltb, nat_beq, ◌==◌,
  string_eq, pair_eq, not, if◌then◌else◌, length, filter, map, any, contains,
}
use pve_zfs_tool.Common.Dict.{Dict, get, put}
use pve_zfs_tool.Common.Scan.{◌>>=◌, skip, read_digits, at_end}
use pve_zfs_tool.Inventory.UnionFind.{append_at}
use pve_zfs_tool.Inventory.UnionFind.Connected.{partition}

pub record Row : Type 0 where
  pub dataset : String
  pub snapshot : String
  pub guid : String
  pub creation : ℕ

-- a place where a guid exists
pub record Place : Type 0 where
  pub host : String
  pub row : Row

-- `^migrate-\d{8}-\d{6}$`
unfoldable pub is_migrate_snap : String → Bool
is_migrate_snap s =
    elim (skip "migrate-" s >>= λ a.
    read_digits 8 0 a >>= λ d. skip "-" d.1 >>= λ b. read_digits 6 0 b >>= λ t. some (at_end t.1)) [
      | none ↦ false
      | some b ↦ b
    ]

unfoldable pub index_rows : String → List Row → Dict String (List Place) → Dict String (List Place)
index_rows host [] index = index
index_rows host (r ∷ rs) index =
    index_rows host rs (append_at r.guid (record { host = host; row = r }) index)

unfoldable pub build_guid_index :
    List (String × List Row) → Dict String (List Place) → Dict String (List Place)
build_guid_index [] index = index
build_guid_index ((host, rows) ∷ hosts) index = build_guid_index hosts (index_rows host rows index)

-- `_lineage_key`
abbrev pub Key : Type 0
Key = String × String

abbrev pub lineage_key : Place → Key
lineage_key p = (p.host, p.row.dataset)

-- the unions that one guid asks for, of its first place with each of the others
unfoldable pub unions_of : List Place → List (Key × Key)
unions_of [] = []
unions_of (first ∷ rest) =
    if ltb (length (first ∷ rest)) 2
    then []
    else if any (λ p. is_migrate_snap p.row.snapshot) (first ∷ rest)
    then []
    else map (λ p. (lineage_key first, lineage_key p)) rest

unfoldable pub all_unions : Dict String (List Place) → List (Key × Key)
all_unions [] = []
all_unions ((guid, places) ∷ index) = unions_of places ++ all_unions index

-- the keys of `members`, in the order of their first rows
unfoldable pub row_keys : String → List Row → List Key → List Key
row_keys host [] seen = seen
row_keys host (r ∷ rs) seen =
    row_keys host rs
      (if contains (host, r.dataset) seen then seen else seen ++ (host, r.dataset) ∷ [])

unfoldable pub member_keys : List (String × List Row) → List Key → List Key
member_keys [] seen = seen
member_keys ((host, rows) ∷ hosts) seen = member_keys hosts (row_keys host rows seen)

-- `grouped`: the keys of each lineage under its root
unfoldable pub group_lineages : List (String × List Row) → Dict Key (List Key)
group_lineages per_host =
    let es = all_unions (build_guid_index per_host []) in
    partition (suc (length es)) (member_keys per_host []) es
