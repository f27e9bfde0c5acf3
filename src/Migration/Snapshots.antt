-- ===== src/Migration/Snapshots.antt =====
-- `select_snapshots_to_delete` and `cleanup_migration_snapshots` of app/migrate.py. The names come
-- from `list_migration_snapshots`; what a `zfs destroy` reports is a parameter.
pub mod Best
pub mod Newest
pub mod Refusal
use pve_zfs_tool.Common.{
  ℕ, ◌+◌, String, Bool, true, false, not, ◌&&◌, Option, none, some, List, [], ◌∷◌, ◌++◌, ◌==◌,
  string_eq, pair_eq, if◌then◌else◌, filter, contains, count_if, all, map,
}
use pve_zfs_tool.Common.Dict.{Dict, get, put}
use pve_zfs_tool.Common.Text.{str_le}
use pve_zfs_tool.Tasks.{Task, running_tasks}

pub record Snap : Type 0 where
  pub dataset : String
  pub snapshot : String

-- the loop that finds the newest of each dataset
unfoldable pub collect_newest : List Snap → Dict String Snap → Dict String Snap
collect_newest [] newest = newest
collect_newest (s ∷ ss) newest = collect_newest ss (elim (get s.dataset newest) [
  | none ↦ put s.dataset s newest
  | some n ↦ if str_le s.snapshot n.snapshot then newest else put s.dataset s newest
])

unfoldable pub keeps : Dict String Snap → List (String × String)
keeps [] = []
keeps ((k, s) ∷ newest) = (s.dataset, s.snapshot) ∷ keeps newest

unfoldable pub select_snapshots_to_delete : List Snap → Bool → List Snap
select_snapshots_to_delete snaps false = snaps
select_snapshots_to_delete snaps true =
    filter (λ s. not (contains (s.dataset, s.snapshot) (keeps (collect_newest snaps [])))) snaps

pub data Cleanup : Type 0 where
  still_running : Cleanup
  -- whether all went, and the snapshots tried on either side
  cleaned : Bool → List Snap → List Snap → Cleanup

-- nothing is destroyed while a migration runs
unfoldable pub cleanup_migration_snapshots :
    {R : Type 0}
    → Dict String (Task R)
    → List Snap
    → List Snap
    → Bool
    → (Snap → Bool)
    → (Snap → Bool)
    → Cleanup
cleanup_migration_snapshots tasks source target keep_latest source_ok target_ok =
    let ours = select_snapshots_to_delete source false in
    let theirs = select_snapshots_to_delete target keep_latest in
    elim (running_tasks "guest-migration" tasks) [
      | [] ↦ cleaned (all source_ok ours && all target_ok theirs) ours theirs
      | t ∷ ts ↦ still_running
    ]
