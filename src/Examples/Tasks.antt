-- ===== src/Examples/Tasks.antt =====
-- Threads of app/tasks.py and the cleanup of app/migrate.py beside them.
use pve_zfs_tool.Common.{ℕ, ◌≡◌, refl, true, List, [], ◌∷◌, all}
use pve_zfs_tool.Tasks.{Step, expires, registers, reports, succeeds, fails, steps}
use pve_zfs_tool.Tasks.{register}
use pve_zfs_tool.Tasks.Laws.{is_kept, steps-kept}
use pve_zfs_tool.Migration.Snapshots.{Snap, still_running, cleanup_migration_snapshots}
use pve_zfs_tool.Migration.Snapshots.Refusal.{cleanup-refused}
use pve_zfs_tool.Common.Scan.{starts_with, skip}

abbrev threads : List (Step ℕ)
threads =
    expires 9
    ∷ registers "a" "report" 10
    ∷ reports "a" "working" 11
    ∷ reports "m" "sending" 12
    ∷ succeeds "a" 7 13
    ∷ fails "b" "gone" 14
    ∷ []

steps-kept_example : all is_kept (steps threads []) ≡ true
steps-kept_example = steps-kept threads [] refl

abbrev leftover : List Snap
leftover = record { dataset = "tank/a"; snapshot = "migrate-20260101-000000" } ∷ []

is_migration : starts_with "guest-migration" "guest-migration 101" ≡ true
unfolding starts_with skip
is_migration = refl

cleanup-refused_example :
    cleanup_migration_snapshots
      (steps threads (register "m" "guest-migration 101" 5 []))
      leftover
      leftover
      true
      (λ s. true)
      (λ s. true)
    ≡ still_running
cleanup-refused_example =
    cleanup-refused "m" "guest-migration 101" 5 threads [] leftover leftover true (λ s. true)
      (λ s. true) is_migration refl
