-- ===== src/Examples/Migration.antt =====
-- A cutover, a rollback and leftover snapshots of app/migrate.py.
use pve_zfs_tool.Common.{◌≡◌, refl, true, false, List, [], ◌∷◌, filter}
use pve_zfs_tool.Migration.{Disk, World, Outside, cutover, Undo, rollback}
use pve_zfs_tool.Migration.Cutover.{Lands, cutover-Lands, Restored, rollback-Restored}
use pve_zfs_tool.Migration.Snapshots.{Snap, select_snapshots_to_delete}
use pve_zfs_tool.Migration.Snapshots.Newest.{has_newer, select_snapshots_to_delete-has_newer}

abbrev plan : List Disk
plan =
    record { source_dataset = "rpool/vm-101-disk-0"; target_dataset = "tank/vm-101-disk-0" }
    ∷ record { source_dataset = "rpool/vm-101-disk-1"; target_dataset = "tank/vm-101-disk-1" }
    ∷ []

abbrev before : World
before = record {
  source_disks = ("rpool/vm-101-disk-0", 5) ∷ ("rpool/vm-101-disk-1", 8) ∷ [];
  snapshots = [];
  target_disks = [];
  source_running = true;
  source_locked = false;
  target_config = false;
  target_running = false;
}

abbrev smooth : Outside
smooth = record {
  in_use = false;
  config_readable = true;
  shuts_down = false;
  stops = true;
  first_answered = true;
  second_answered = true;
  final = ("rpool/vm-101-disk-0", 6) ∷ ("rpool/vm-101-disk-1", 8) ∷ [];
  later = ("rpool/vm-101-disk-0", 7) ∷ ("rpool/vm-101-disk-1", 9) ∷ [];
  snapshot_ok = λ _. true;
  send_ok = λ _. true;
  config_written = true;
  locks = true;
  starts = true;
}

cutover-Lands_example :
    Lands smooth before
      (cutover smooth true "migrate-20260101-000000" plan before).0
      plan
      (cutover smooth true "migrate-20260101-000000" plan before).1
cutover-Lands_example = cutover-Lands smooth true "migrate-20260101-000000" plan before refl

abbrev after_move : World
after_move = record before { source_running = false; target_config = true; target_running = true }

abbrev smooth_undo : Undo
smooth_undo = record {
  target_stops = true;
  status_answered = true;
  config_removed = true;
  unlocks = true;
  source_starts = true;
}

rollback-Restored_example :
    Restored smooth_undo true after_move (rollback smooth_undo true after_move).0
unfolding rollback
rollback-Restored_example = rollback-Restored smooth_undo true after_move refl

abbrev leftover : List Snap
leftover =
    record { dataset = "tank/a"; snapshot = "migrate-20260101-000000" }
    ∷ record { dataset = "tank/b"; snapshot = "migrate-20260101-000000" }
    ∷ record { dataset = "tank/a"; snapshot = "migrate-20260102-000000" }
    ∷ []

select_snapshots_to_delete-has_newer_example :
    select_snapshots_to_delete leftover true ≡ filter (λ s. has_newer s leftover) leftover
select_snapshots_to_delete-has_newer_example = select_snapshots_to_delete-has_newer leftover
