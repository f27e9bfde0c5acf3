-- ===== src/Migration.antt =====
-- app/migrate.py: the move of a guest to another host, its undoing, and the removal of what is left
-- over. What a command on a host does is an outcome that the caller meets: a command that reports
-- success had its effect, one that fails had none; a guest that runs is only seen to run if the
-- query of its status is answered, as in `guest_is_running`. `_transfer_disk` is such a command,
-- after which the target's dataset holds what the snapshot holds. The content of a dataset is a
-- number.
pub mod Cutover
pub mod Preflight
pub mod Snapped
pub mod Storage
pub mod Snapshots
pub mod Transfer
use pve_zfs_tool.Common.{
  ℕ, String, Bool, true, false, not, ◌&&◌, ◌||◌, Option, none, some, List, [], ◌∷◌, ◌++◌, ◌==◌,
  string_eq, pair_eq, if◌then◌else◌, all, map,
}
use pve_zfs_tool.Common.Dict.{Dict, get, put}

-- a row of the plan
pub record Disk : Type 0 where
  pub source_dataset : String
  pub target_dataset : String

pub record World : Type 0 where
  pub source_disks : Dict String ℕ
  pub snapshots : Dict (String × String) ℕ
  pub target_disks : Dict String ℕ
  pub source_running : Bool
  pub source_locked : Bool
  pub target_config : Bool
  pub target_running : Bool

pub record Outside : Type 0 where
  pub in_use : Bool
  pub config_readable : Bool
  pub shuts_down : Bool
  pub stops : Bool
  pub first_answered : Bool  -- the status queries after the shutdown and after the forced stop
  pub second_answered : Bool
  pub final : Dict String ℕ  -- the source's disks once the guest is down
  pub later : Dict String ℕ  -- what a guest that was not stopped has written by the end
  pub snapshot_ok : String → Bool
  pub send_ok : String → Bool
  pub config_written : Bool
  pub locks : Bool
  pub starts : Bool

abbrev pub content_of : Option ℕ → ℕ
content_of none = 0
content_of (some c) = c

-- one `zfs snapshot`
unfoldable pub snapshot_one : Outside → String → Disk → World → World
snapshot_one o snap p w =
    if o.snapshot_ok p.source_dataset
    then record w {
      snapshots =
          put (p.source_dataset, snap) (content_of (get p.source_dataset w.source_disks))
            w.snapshots;
    }
    else w

-- all snapshots are tried; true if each one was made
unfoldable pub snapshot_all : Outside → String → List Disk → World → World × Bool
snapshot_all o snap [] w = (w, true)
snapshot_all o snap (p ∷ ps) w =
    let (w', ok) = snapshot_all o snap ps (snapshot_one o snap p w) in
    (w', o.snapshot_ok p.source_dataset && ok)

-- one `_transfer_disk` that succeeds
unfoldable pub transfer_one : String → Disk → World → World
transfer_one snap p w = record w {
  target_disks =
      put p.target_dataset (content_of (get (p.source_dataset, snap) w.snapshots)) w.target_disks;
}

-- the disks in order, up to the first that fails
unfoldable pub transfer_disks : Outside → String → List Disk → World → World × Bool
transfer_disks o snap [] w = (w, true)
transfer_disks o snap (p ∷ ps) w =
    let rest = transfer_disks o snap ps (transfer_one snap p w) in
    if o.send_ok p.source_dataset then rest else (w, false)

unfoldable pub run_transfer : Outside → String → List Disk → World → World × Bool
run_transfer o snap plan w =
    let (w', made) = snapshot_all o snap plan w in
    if made then transfer_disks o snap plan w' else (w', false)

-- the guest writes until it is down
unfoldable pub go_down : Outside → World → World
go_down o w =
    if w.source_running then record w { source_running = false; source_disks = o.final } else w

-- `guest_is_running`: false where the query is not answered
abbrev pub is_seen_running : Bool → World → Bool
is_seen_running answered w = answered && w.source_running

-- the forced stop, where the guest is still seen to run
unfoldable pub force_stop : Outside → World → World × Bool
force_stop o w =
    let w' = if o.stops then go_down o w else w in (w', not (is_seen_running o.second_answered w'))

-- a graceful shutdown, then a forced stop
unfoldable pub stop_guest : Outside → World → World × Bool
stop_guest o w =
    let w' = if o.shuts_down then go_down o w else w in
    if is_seen_running o.first_answered w' then force_stop o w' else (w', true)

-- a guest that still runs has gone on writing
abbrev pub write_on : Outside → World → World
write_on o w = if w.source_running then record w { source_disks = o.later } else w

pub data Outcome : Type 0 where
  vmid_in_use no_config not_stopped transfer_failed config_failed : Outcome
  moved : Bool → Bool → Outcome

abbrev pub set_lock : Bool → Bool → World → World
set_lock ok to w = if ok then record w { source_locked = to } else w

-- from the written configuration on
unfoldable pub finish : Outside → Bool → World → World × Outcome
finish o start w =
    let locked = set_lock o.locks true (record w { target_config = true }) in
    if start && o.starts
    then (record locked { target_running = true }, moved true o.locks)
    else (locked, moved false o.locks)

-- once the final transfer is over
unfoldable pub land : Outside → Bool → Bool → World → World × Outcome
land o start ok sent =
    if not ok
    then (sent, transfer_failed)
    else if not o.config_written
    then (sent, config_failed)
    else finish o start sent

-- once the guest was told to stop
unfoldable pub proceed : Outside → Bool → String → List Disk → Bool → World → World × Outcome
proceed o start snap plan down stopped =
    let (sent, ok) = run_transfer o snap plan stopped in
    if not down then (stopped, not_stopped) else land o start ok (write_on o sent)

-- the job of `cutover_async`
unfoldable pub cutover : Outside → Bool → String → List Disk → World → World × Outcome
cutover o start snap plan w =
    let (stopped, down) = stop_guest o w in
    if o.in_use
    then (w, vmid_in_use)
    else if not o.config_readable
    then (w, no_config)
    else proceed o start snap plan down stopped

-- what the commands of `rollback` meet
pub record Undo : Type 0 where
  pub target_stops : Bool
  pub status_answered : Bool
  pub config_removed : Bool
  pub unlocks : Bool
  pub source_starts : Bool

-- the four steps with their success
unfoldable pub rollback : Undo → Bool → World → World × List Bool
rollback u start w =
    let stopped = if u.target_stops then record w { target_running = false } else w in
    let removed = if u.config_removed then record stopped { target_config = false } else stopped in
    let unlocked = set_lock u.unlocks false removed in
    let started =
      if start && u.source_starts then record unlocked { source_running = true } else unlocked in
    (
      started,
      not (u.status_answered && stopped.target_running)
          ∷ u.config_removed
          ∷ u.unlocks
          ∷ ((start && u.source_starts) || not start)
          ∷ [],
    )
