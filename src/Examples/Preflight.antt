-- ===== src/Examples/Preflight.antt =====
-- A preflight and a proposed storage of app/migrate.py, and a matrix of app/replication_inventory.py.
use pve_zfs_tool.Common.{
  ◌≡◌, refl, String, true, false, some, List, [], ◌∷◌, arith, contains, string_eq, any,
}
use pve_zfs_tool.Common.Scan.{has_char}
use pve_zfs_tool.Common.Words.{strip, lstrip, rstrip}
use pve_zfs_tool.Validators.{validate_vmid, matches, match_rest}
use pve_zfs_tool.Migration.Storage.{suggest_storage_id, check_storage_match, find_storage}
use pve_zfs_tool.Migration.Storage.Fresh.{suggest_storage_id-free}
use pve_zfs_tool.Migration.Preflight.{
  Found, Report, preflight, report, report_of, is_dataset, wanted_vmid, all_checks, disk_check,
  bridge_checks, plan_checks, plan_row, last_common,
}
use pve_zfs_tool.Migration.Preflight.Ready.{Ready, preflight-Ready}
use pve_zfs_tool.Inventory.Matrix.{Guest, lxc, is_of, build_matrix, filter_matrix}
use pve_zfs_tool.Inventory.Matrix.Listed.{guest_listed}

abbrev taken : List String
taken = "data" ∷ "data-2" ∷ []

suggest_storage_id-free_example :
    (c : String) × (suggest_storage_id 3 "rpool/Data" taken ≡ some c) × (contains c taken ≡ false)
suggest_storage_id-free_example = suggest_storage_id-free 3 "rpool/Data" taken (omega arith)

abbrev found : Found
found = record {
  config_readable = true;
  unresolved = false;
  disks = "rpool/data/vm-101-disk-0" ∷ [];
  running = true;
  in_use = λ v. false;
  exists = λ d. true;
  source_snapshots = λ d. "daily-1" ∷ "daily-2" ∷ [];
  target_snapshots = λ d. "daily-1" ∷ [];
  pve_snapshots = false;
  storages = record { storage = "tank"; pool = "tank/data"; content = []; nodes = [] } ∷ [];
  source_bridges = "vmbr0" ∷ [];
  target_bridges = "vmbr0" ∷ [];
  target_reaches_source = true;
  source_reaches_target = false;
}

abbrev answer : Report
answer = report_of found "101" "" "101" "tank/data" "tank"

reported : preflight found (some "101") "" "tank/data" "tank" ≡ report answer
unfolding preflight validate_vmid matches strip rstrip lstrip match_rest wanted_vmid is_dataset
    has_char
reported = refl

can_start : answer.can_cutover ≡ true
unfolding all_checks disk_check check_storage_match find_storage bridge_checks plan_checks plan_row
    last_common
can_start = refl

preflight-Ready_example : Ready found "tank/data" "tank" answer
preflight-Ready_example =
    preflight-Ready found (some "101") "" "tank/data" "tank" answer reported can_start

abbrev guests : List (String × List Guest)
guests = ("10.0.0.1", record { vmid = "101"; name = "web"; guest_type = lxc } ∷ []) ∷ []

guest_listed_example :
    any (is_of "10.0.0.1" "101") (filter_matrix (build_matrix [] guests [] []) "10.0.0.1").guests
    ≡ true
guest_listed_example = guest_listed [] guests [] [] "10.0.0.1" "101" refl refl
