-- ===== src/Migration/Cutover.antt =====
-- What a cutover and a rollback of app/migrate.py leave.
use pve_zfs_tool.Common.{
  String, ◌≡◌, refl, ◌∙◌, Bool, true, false, not, ◌&&◌, ◌||◌, List, arith, if◌then◌else◌, all, ap,
  Bool-cases, inl, inr,
}
use pve_zfs_tool.Migration.{
  Disk, World, Outside, run_transfer, stop_guest, force_stop, go_down, write_on, Outcome,
  vmid_in_use, no_config, transfer_failed, config_failed, moved, finish, land, proceed, cutover,
  Undo, rollback,
}
use pve_zfs_tool.Migration.Transfer.{run_transfer-Frame, run_transfer-holds_all}
use pve_zfs_tool.Migration.Snapped.{apart, holds_all}

-- the target and the lock, as they were before
abbrev pub Untouched : World → World → Type 0
Untouched w w' =
    (w'.target_running ≡ w.target_running)
    × (w'.target_config ≡ w.target_config)
    × (w'.source_locked ≡ w.source_locked)

-- both queries of the guest's status are answered
abbrev pub answered : Outside → Bool
answered o = o.first_answered && o.second_answered

-- down, if its status could be read; a disk is complete if the guest is down
abbrev pub Still : Outside → World → Type 0
Still o w' = (answered o && w'.source_running) ≡ false

-- What each outcome says of the world before and after.
abbrev pub Lands : Outside → World → World → List Disk → Outcome → Type 0
Lands o w w' plan (moved started locked) =
    Still o w'
    × ((w'.source_running || holds_all w' plan) ≡ true)
    × (w'.target_config ≡ true)
    × (w'.target_running ≡ (started || w.target_running))
    × (w'.source_locked ≡ (locked || w.source_locked))
Lands o w w' plan transfer_failed = Still o w' × Untouched w w'
Lands o w w' plan config_failed =
    Still o w' × ((w'.source_running || holds_all w' plan) ≡ true) × Untouched w w'
Lands o w w' plan _ = (w'.source_running ≡ w.source_running) × Untouched w w'

either-Lands :
    (b : Bool) (o : Outside) (w : World) (plan : List Disk) (x y : World × Outcome)
    → Lands o w x.0 plan x.1
    → Lands o w y.0 plan y.1
    → Lands o w (if b then x else y).0 plan (if b then x else y).1
either-Lands true o w plan x y h k = h
either-Lands false o w plan x y h k = k

finish-Lands :
    (o : Outside) (start : Bool) (plan : List Disk) (w sent : World)
    → Still o sent
    → Untouched w sent
    → (sent.source_running || holds_all sent plan) ≡ true
    → Lands o w (finish o start sent).0 plan (finish o start sent).1
unfolding finish
finish-Lands o start plan w sent down same holds = elim (Bool-cases (start && o.starts)) [
  | inl go ↦ elim (Bool-cases o.locks) [
    | inl locks ↦ rw (go, locks) (down, holds, refl, refl, refl)
    | inr open_ ↦ rw (go, open_) (down, holds, refl, refl, same.2)
  ]
  | inr stay ↦ elim (Bool-cases o.locks) [
    | inl locks ↦ rw (stay, locks) (down, holds, refl, same.0, refl)
    | inr open_ ↦ rw (stay, open_) (down, holds, refl, same.0, same.2)
  ]
]

land-Lands :
    (o : Outside) (start ok : Bool) (plan : List Disk) (w sent : World)
    → Still o sent
    → Untouched w sent
    → (ok ≡ true → (sent.source_running || holds_all sent plan) ≡ true)
    → Lands o w (land o start ok sent).0 plan (land o start ok sent).1
unfolding land
land-Lands o start false plan w sent down same holds = (down, same)
land-Lands o start true plan w sent down same holds =
    either-Lands (not o.config_written) o w plan (sent, config_failed) (finish o start sent)
      (down, holds refl, same) (finish-Lands o start plan w sent down same (holds refl))

write_on-holds :
    (o : Outside) (plan : List Disk) (w : World)
    → holds_all w plan ≡ true
    → ((write_on o w).source_running || holds_all (write_on o w) plan) ≡ true
write_on-holds o plan w h = elim (Bool-cases w.source_running) [
  | inl y ↦ rw y refl
  | inr n ↦ rw n h
]

write_on-Frame :
    (o : Outside) (w : World)
    → ((write_on o w).source_running ≡ w.source_running) × Untouched w (write_on o w)
write_on-Frame o w = elim (Bool-cases w.source_running) [
  | inl y ↦ rw y (refl, (refl, refl, refl))
  | inr n ↦ rw n (refl, (refl, refl, refl))
]

-- what is known of the guest once it was told to stop
abbrev Stopped : Outside → World → World → Bool → Type 0
Stopped o w w' true = Still o w'
Stopped o w w' false = w'.source_running ≡ w.source_running

proceed-Lands :
    (o : Outside) (start down : Bool) (snap : String) (plan : List Disk) (w stopped : World)
    → apart plan ≡ true
    → Stopped o w stopped down
    → Untouched w stopped
    → Lands o w
        (proceed o start snap plan down stopped).0
        plan
        (proceed o start snap plan down stopped).1
unfolding proceed
proceed-Lands o start false snap plan w stopped d runs same = (runs, same)
proceed-Lands o start true snap plan w stopped d still same =
    let f = run_transfer-Frame o snap plan stopped in
    let sent = (run_transfer o snap plan stopped).0 in
    let g = write_on-Frame o sent in
    land-Lands o start (run_transfer o snap plan stopped).1 plan w (write_on o sent)
      (ap (λ b. answered o && b) (g.0 ∙ f.1) ∙ still)
      (g.1.0 ∙ f.4 ∙ same.0, g.1.1 ∙ f.3 ∙ same.1, g.1.2 ∙ f.2 ∙ same.2)
      (λ ok. write_on-holds o plan sent (run_transfer-holds_all o snap plan stopped d ok))

by-Stopped :
    (b : Bool) (o : Outside) (w w' : World)
    → (b ≡ true → Still o w')
    → (b ≡ false → w'.source_running ≡ w.source_running)
    → Stopped o w w' b
by-Stopped true o w w' h k = h refl
by-Stopped false o w w' h k = k refl

stop_guest-Untouched : (o : Outside) (w : World) → Untouched w (stop_guest o w).0
unfolding stop_guest force_stop go_down
stop_guest-Untouched o w = ground arith

stop_guest-Still :
    (o : Outside) (w : World) → (stop_guest o w).1 ≡ true → Still o (stop_guest o w).0
unfolding stop_guest force_stop go_down
stop_guest-Still o w h = ground arith

stop_guest_failed :
    (o : Outside) (w : World)
    → (stop_guest o w).1 ≡ false
    → (stop_guest o w).0.source_running ≡ w.source_running
unfolding stop_guest force_stop go_down
stop_guest_failed o w h = ground arith

-- A move that is reported as done, to disjoint targets, has the guest down on the source if both
-- queries of its status were answered, the configuration written, and the guest started on the
-- target and the source locked as reported; each disk of the target holds what the source's holds,
-- unless the guest still runs there. Every other outcome leaves the target's guest and
-- configuration and the source's lock as they were, and the guest on the source runs as before,
-- unless the transfer or the write of the configuration failed, when it is down if both queries
-- were answered.
pub cutover-Lands :
    (o : Outside) (start : Bool) (snap : String) (plan : List Disk) (w : World)
    → apart plan ≡ true
    → Lands o w (cutover o start snap plan w).0 plan (cutover o start snap plan w).1
unfolding cutover
cutover-Lands o start snap plan w d =
    let (stopped, down) = stop_guest o w in
    let go = proceed o start snap plan down stopped in
    either-Lands o.in_use o w plan (w, vmid_in_use)
      (if not o.config_readable then (w, no_config) else go) (refl, (refl, refl, refl))
      (either-Lands (not o.config_readable) o w plan (w, no_config) go (refl, (refl, refl, refl))
        (proceed-Lands o start down snap plan w stopped d
          (by-Stopped down o w stopped (stop_guest-Still o w) (stop_guest_failed o w))
          (stop_guest-Untouched o w)))

-- what a rollback of `w` leaves that reports success
abbrev pub Restored : Undo → Bool → World → World → Type 0
Restored u start w w' =
    ((u.status_answered && w'.target_running) ≡ false)
    × (w'.target_config ≡ false)
    × (w'.source_locked ≡ false)
    × (w'.source_running ≡ (start || w.source_running))
    × (w'.target_disks ≡ w.target_disks)
    × (w'.source_disks ≡ w.source_disks)

-- A rollback that reports success has removed the guest's configuration from the target, unlocked
-- the source and started the guest there if asked to; the guest on the target is down, if its
-- status could be read, and the datasets of both hosts are as they were.
pub rollback-Restored :
    (u : Undo) (start : Bool) (w : World)
    → all (λ s. s) (rollback u start w).1 ≡ true
    → Restored u start w (rollback u start w).0
unfolding rollback
rollback-Restored u start w h = ground arith
