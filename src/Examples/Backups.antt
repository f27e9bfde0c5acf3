-- ===== src/Examples/Backups.antt =====
-- A guest's backups, and a node whose storages were read or not (app/backups.py).
use pve_zfs_tool.Common.{
  ℕ, String, ◌≡◌, refl, ◌≢◌, ◌↔◌, Bool, true, false, none, some, List, [], ◌∷◌, arith, contains,
  if◌then◌else◌, ◌==◌, string_eq, eq_iff,
}
use pve_zfs_tool.Common.Dict.{get}
use pve_zfs_tool.Backups.{Volume, Job, Rec, guest_backup_map}
use pve_zfs_tool.Backups.States.{absent, backup_state, green, unknown, unreadable, no_record}
use pve_zfs_tool.Backups.Fold.{Summary, of_guest, guest_backup_map-Summary}
use pve_zfs_tool.Backups.Verdicts.{IsSound, backup_state-green_iff}
use pve_zfs_tool.Backups.Collect.{Storage, Node, host_backup_states}
use pve_zfs_tool.Backups.Collect.Laws.{unreadable-unknown}

ne : (a b : String) → (a == b) ≡ false → a ≢ b
ne a b h e = ground (arith, eq_iff a b)

abbrev volume : String → ℕ → Volume
volume vmid t = record {
  volid = "pbs:backup/vm";
  storage = "pbs";
  storage_type = "pbs";
  verifies = true;
  vmid = vmid;
  ctime = t;
  size = 10;
  verify = some "ok";
  protected = false;
}

abbrev volumes : List Volume
volumes = volume "101" 5000 ∷ volume "102" 6000 ∷ volume "101" 9000 ∷ []

abbrev nightly : Job
nightly = record {
  id = "nightly";
  enabled = true;
  all_guests = true;
  vmid = [];
  exclude = "102" ∷ [];
}

guest_backup_map-Summary_example :
    Summary
      (get "101" (guest_backup_map volumes (nightly ∷ [])))
      "101"
      (of_guest "101" volumes)
      (nightly ∷ [])
guest_backup_map-Summary_example =
    guest_backup_map-Summary "101" volumes (nightly ∷ []) (ne "101" "" refl)

abbrev kept_rec : Rec
kept_rec = record {
  count = 2;
  newest = 9000;
  newest_volid = "pbs:backup/vm";
  newest_verify = some "ok";
  newest_verifies = true;
  storages = "pbs" ∷ [];
  types = "pbs" ∷ [];
  verify_failed = 0;
  protected = 0;
  total_size = 20;
  covered_by = "nightly" ∷ [];
}

backup_state-green_iff_example :
    ((backup_state (some kept_rec) 10000 26 50 true).state ≡ green)
    ↔ ((rec : Rec) × (some kept_rec ≡ some rec) × IsSound rec 10000 26 50 true)
backup_state-green_iff_example = backup_state-green_iff (some kept_rec) 10000 26 50 true

abbrev pbs : Storage
pbs = record { storage = "pbs"; enabled = true; active = true }

abbrev node : Bool → Bool → Node
node reads knows = record {
  name = "pve1";
  storages = record { success = true; rows = pbs ∷ [] };
  content = λ _. record { success = reads; rows = (if reads then volumes else []) };
  jobs = record { success = knows; rows = nightly ∷ [] };
}

abbrev asked : List String
asked = "101" ∷ "777" ∷ []

unreadable-unknown_example :
    get "101" (host_backup_states (node false true) absent absent 10000 asked)
    ≡ (if contains {A = String} "101" asked then some (no_record unknown unreadable) else none)
unreadable-unknown_example =
    unreadable-unknown (node false true) absent absent 10000 asked "101" (ne "101" "" refl) refl
