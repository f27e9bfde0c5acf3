-- ===== src/Migration/Snapped.antt =====
-- What the snapshots and the transfers of app/migrate.py leave alone, and what the snapshots hold.
use pve_zfs_tool.Common.{
  ℕ, String, ◌≡◌, refl, ◌∙◌, ap, Bool, true, not, ◌&&◌, List, [], ◌∷◌, arith, ◌==◌, string_eq,
  nat_eq, pair_eq, eq_iff, if◌then◌else◌, all, any, Bool-cases, inl, inr,
}
use pve_zfs_tool.Common.Dict.{get, get-put}
use pve_zfs_tool.Migration.{
  Disk, World, Outside, content_of, snapshot_one, snapshot_all, transfer_one, transfer_disks,
}

-- no two disks share a target
abbrev pub apart : List Disk → Bool
apart [] = true
apart (p ∷ ps) = not (any (λ q. q.target_dataset == p.target_dataset) ps) && apart ps

abbrev pub source_content : World → String → ℕ
source_content w ds = content_of (get ds w.source_disks)

abbrev pub target_content : World → String → ℕ
target_content w ds = content_of (get ds w.target_disks)

abbrev pub snap_content : World → String → String → ℕ
snap_content w snap ds = content_of (get (ds, snap) w.snapshots)

-- each disk of the plan holds on the target what it holds on the source
abbrev pub holds_all : World → List Disk → Bool
holds_all w ps =
    all (λ p. target_content w p.target_dataset == source_content w p.source_dataset) ps

abbrev pub snapped : World → String → List Disk → Bool
snapped w snap ps =
    all (λ p. snap_content w snap p.source_dataset == source_content w p.source_dataset) ps

pub and-intro : (a b : Bool) → a ≡ true → b ≡ true → (a && b) ≡ true
and-intro a b h k = ground arith

-- what the transfer leaves alone
abbrev pub Frame : World → World → Type 0
Frame w w' =
    (w'.source_disks ≡ w.source_disks)
    × (w'.source_running ≡ w.source_running)
    × (w'.source_locked ≡ w.source_locked)
    × (w'.target_config ≡ w.target_config)
    × (w'.target_running ≡ w.target_running)

pub Frame-trans : (u v w : World) → Frame u v → Frame v w → Frame u w
Frame-trans u v w f g = (g.0 ∙ f.0, g.1 ∙ f.1, g.2 ∙ f.2, g.3 ∙ f.3, g.4 ∙ f.4)

pub snapshot_one-Frame :
    (o : Outside) (snap : String) (p : Disk) (w : World) → Frame w (snapshot_one o snap p w)
unfolding snapshot_one
snapshot_one-Frame o snap p w = ground arith

pub snapshot_all-Frame :
    (o : Outside) (snap : String) (ps : List Disk) (w : World)
    → Frame w (snapshot_all o snap ps w).0
unfolding snapshot_all
snapshot_all-Frame o snap [] w = (refl, refl, refl, refl, refl)
snapshot_all-Frame o snap (p ∷ ps) w =
    Frame-trans w (snapshot_one o snap p w) (snapshot_all o snap ps (snapshot_one o snap p w)).0
      (snapshot_one-Frame o snap p w) (snapshot_all-Frame o snap ps (snapshot_one o snap p w))

pub transfer_one-Frame : (snap : String) (p : Disk) (w : World) → Frame w (transfer_one snap p w)
unfolding transfer_one
transfer_one-Frame snap p w = (refl, refl, refl, refl, refl)

pub transfer_disks-Frame :
    (o : Outside) (snap : String) (ps : List Disk) (w : World)
    → Frame w (transfer_disks o snap ps w).0
unfolding transfer_disks
transfer_disks-Frame o snap [] w = (refl, refl, refl, refl, refl)
transfer_disks-Frame o snap (p ∷ ps) w = elim (Bool-cases (o.send_ok p.source_dataset)) [
  | inl y ↦ rw y (
      Frame-trans w (transfer_one snap p w) (transfer_disks o snap ps (transfer_one snap p w)).0
        (transfer_one-Frame snap p w) (transfer_disks-Frame o snap ps (transfer_one snap p w)))
  | inr n ↦ rw n (refl, refl, refl, refl, refl)
]

pub snap_content-snapshot_one :
    (o : Outside) (snap ds : String) (p : Disk) (w : World)
    → o.snapshot_ok p.source_dataset ≡ true
    → snap_content (snapshot_one o snap p w) snap ds
      ≡ (if p.source_dataset == ds then source_content w ds else snap_content w snap ds)
unfolding snapshot_one
snap_content-snapshot_one o snap ds p w h = ground (
  arith,
  get-put (ds, snap) (p.source_dataset, snap) (content_of (get p.source_dataset w.source_disks))
      w.snapshots,
  eq_iff snap snap,
  eq_iff p.source_dataset ds,
)

pub snap_content-snapshot_all :
    (o : Outside) (snap ds : String) (ps : List Disk) (w : World)
    → (snapshot_all o snap ps w).1 ≡ true
    → snap_content (snapshot_all o snap ps w).0 snap ds ≡ (
        if any (λ p. p.source_dataset == ds) ps
        then source_content w ds
        else snap_content w snap ds)
unfolding snapshot_all
snap_content-snapshot_all o snap ds [] w h = refl
snap_content-snapshot_all o snap ds (p ∷ ps) w h = ground (
  arith,
  snap_content-snapshot_all o snap ds ps (snapshot_one o snap p w),
  snap_content-snapshot_one o snap ds p w,
  ap (λ m. content_of (get ds m)) (snapshot_one-Frame o snap p w).0,
)
