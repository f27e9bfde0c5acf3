-- ===== src/Migration/Snapshots/Refusal.antt =====
-- `cleanup_migration_snapshots` of app/migrate.py beside the tasks of app/tasks.py.
use pve_zfs_tool.Common.{ℕ, String, ◌≡◌, Bool, true, List, arith, all, string_eq}
use pve_zfs_tool.Common.Dict.{Dict, get-nil}
use pve_zfs_tool.Common.Scan.{starts_with}
use pve_zfs_tool.Tasks.{Task, register, running_tasks, Step, steps}
use pve_zfs_tool.Tasks.Laws.{runs, spares, registered-listed}
use pve_zfs_tool.Migration.Snapshots.{Snap, still_running, cleanup_migration_snapshots}

module _ {R : Type 0} where
  refused :
      (k name : String) (tasks : Dict String (Task R)) (source target : List Snap) (keep : Bool)
      (source_ok target_ok : Snap → Bool)
      → runs k name (running_tasks "guest-migration" tasks) ≡ true
      → cleanup_migration_snapshots tasks source target keep source_ok target_ok ≡ still_running
  unfolding cleanup_migration_snapshots
  refused k name tasks source target keep source_ok target_ok h =
      ground (arith, get-nil {V = Task R} k)

  -- From the insertion of a task whose name starts with guest-migration until a step ends it or
  -- reuses its id, whatever the other threads do, a cleanup is refused and destroys nothing.
  pub cleanup-refused :
      (k name : String) (now : ℕ) (ss : List (Step R)) (tasks : Dict String (Task R))
      (source target : List Snap) (keep : Bool) (source_ok target_ok : Snap → Bool)
      → starts_with "guest-migration" name ≡ true
      → all (spares k) ss ≡ true
      → cleanup_migration_snapshots
          (steps ss (register k name now tasks))
          source
          target
          keep
          source_ok
          target_ok
        ≡ still_running
  cleanup-refused k name now ss tasks source target keep source_ok target_ok p f =
      refused k name (steps ss (register k name now tasks)) source target keep source_ok target_ok
        (registered-listed k name "guest-migration" now ss tasks p f)
