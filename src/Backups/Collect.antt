-- ===== src/Backups/Collect.antt =====
-- `collect_backups`, `_read_storage` and `host_backup_states` of app/backups.py. What the node
-- answers over SSH is a record of the parsed answers; the order of the parallel reads is that
-- of the storages, since `pool.map` keeps it.
pub mod Laws
use pve_zfs_tool.Common.{
  ℕ, String, Bool, true, false, not, ◌&&◌, ◌||◌, Option, none, some, List, [], ◌∷◌, ◌++◌, ◌==◌,
  string_eq, if◌then◌else◌,
}
use pve_zfs_tool.Common.Dict.{Dict}
use pve_zfs_tool.Backups.{Volume, Job, guest_backup_map}
use pve_zfs_tool.Backups.States.{Verdict, Setting, is_empty, backup_thresholds, guest_backup_states}

-- a row of `parse_storage_list`
pub record Storage : Type 0 where
  pub storage : String
  pub enabled : Bool
  pub active : Bool

-- `run_command` and the parse of its output
pub record Answer {ℓ} (A : Type ℓ) : Type ℓ where
  pub success : Bool
  pub rows : List A

pub record Node : Type 0 where
  pub name : String  -- "" if it could not be determined
  pub storages : Answer Storage
  pub content : Storage → Answer Volume
  pub jobs : Answer Job

-- `vols` or `None` with an error
unfoldable pub read_storage : Node → Storage → Option (List Volume)
read_storage node st =
    if not st.enabled || not st.active
    then none
    else if is_empty (node.content st).rows && not (node.content st).success
    then none
    else some (node.content st).rows

pub record Collected : Type 0 where
  pub volumes : List Volume
  pub unreadable : List Storage
  pub readable : Bool
  pub jobs : List Job
  pub jobs_known : Bool

abbrev pub add_result : Storage → Option (List Volume) → Collected → Collected
add_result st none out = record out { unreadable = out.unreadable ++ st ∷ [] }
add_result st (some vols) out = record out { readable = true; volumes = out.volumes ++ vols }

-- the loop over the results
unfoldable pub add_results : Node → List Storage → Collected → Collected
add_results node [] out = out
add_results node (st ∷ sts) out = add_results node sts (add_result st (read_storage node st) out)

abbrev pub nothing : Collected
nothing = record { volumes = []; unreadable = []; readable = false; jobs = []; jobs_known = false }

-- `_read_jobs`
unfoldable pub with_jobs : Node → Collected → Collected
with_jobs node out = record out {
  jobs = (if node.jobs.success then node.jobs.rows else []);
  jobs_known = node.jobs.success;
}

unfoldable pub collect_backups : Node → Collected
unfolding add_results with_jobs read_storage
collect_backups node =
    if node.name == ""
    then nothing
    else if is_empty node.storages.rows
    then with_jobs node (record nothing { readable = node.storages.success })
    else with_jobs node (add_results node node.storages.rows nothing)

unfoldable pub host_backup_states : Node → Setting → Setting → ℕ → List String → Dict String Verdict
unfolding collect_backups
host_backup_states node w c now vmids =
    let out = collect_backups node in
    let (warn, crit) = backup_thresholds w c in
    guest_backup_states (guest_backup_map out.volumes out.jobs) now warn crit out.jobs_known
      (not out.readable) vmids
