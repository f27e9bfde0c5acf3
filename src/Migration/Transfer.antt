-- ===== src/Migration/Transfer.antt =====
-- What the targets hold after `_run_transfer` of app/migrate.py.
use mathlib.Core.Path.{subst}
use pve_zfs_tool.Common.{
  String, ◌≡◌, refl, sym, ◌∙◌, ap, Bool, true, false, List, [], ◌∷◌, arith, ◌==◌, string_eq, nat_eq,
  pair_eq, eq_iff, if◌then◌else◌, all, any, Bool-cases, inl, inr,
}
use pve_zfs_tool.Common.Dict.{get, get-put}
use pve_zfs_tool.Migration.{
  Disk, World, Outside, content_of, snapshot_all, transfer_one, transfer_disks, run_transfer,
}
use pve_zfs_tool.Migration.Snapped.{
  apart, target_content, snap_content, holds_all, snapped, and-intro, Frame, Frame-trans,
  snapshot_all-Frame, transfer_disks-Frame, snap_content-snapshot_all,
}

target_content-transfer_one :
    (snap td : String) (p : Disk) (w : World)
    → target_content (transfer_one snap p w) td ≡ (
        if p.target_dataset == td
        then snap_content w snap p.source_dataset
        else target_content w td)
unfolding transfer_one
target_content-transfer_one snap td p w =
    ground
      (arith, get-put td p.target_dataset (snap_content w snap p.source_dataset) w.target_disks)

target_content-frame :
    (o : Outside) (snap td : String) (ps : List Disk) (w : World)
    → any (λ q. q.target_dataset == td) ps ≡ false
    → target_content (transfer_disks o snap ps w).0 td ≡ target_content w td
unfolding transfer_disks
target_content-frame o snap td [] w h = refl
target_content-frame o snap td (p ∷ ps) w h = ground (
  arith,
  target_content-frame o snap td ps (transfer_one snap p w),
  target_content-transfer_one snap td p w,
)

-- the disks whose target holds what a snapshot holds
abbrev sent_all : World → World → String → List Disk → Bool
sent_all w w' snap ps =
    all (λ p. target_content w' p.target_dataset == snap_content w snap p.source_dataset) ps

snapshots-transfer_one :
    (snap : String) (p : Disk) (w : World) → (transfer_one snap p w).snapshots ≡ w.snapshots
unfolding transfer_one
snapshots-transfer_one snap p w = refl

transfer_disks-ok :
    (o : Outside) (snap : String) (p : Disk) (ps : List Disk) (w : World)
    → (transfer_disks o snap (p ∷ ps) w).1 ≡ true
    → transfer_disks o snap (p ∷ ps) w ≡ transfer_disks o snap ps (transfer_one snap p w)
unfolding transfer_disks
transfer_disks-ok o snap p ps w h = elim (Bool-cases (o.send_ok p.source_dataset)) [
  | inl y ↦ rw y refl
  | inr n ↦ absurd (ground arith)
]

transfer_disks-sent :
    (o : Outside) (snap : String) (ps : List Disk) (w : World)
    → apart ps ≡ true
    → (transfer_disks o snap ps w).1 ≡ true
    → sent_all w (transfer_disks o snap ps w).0 snap ps ≡ true
transfer_disks-sent o snap [] w d h = refl
transfer_disks-sent o snap (p ∷ ps) w d h =
    let e = transfer_disks-ok o snap p ps w h in
    let one = transfer_one snap p w in
    let x = (transfer_disks o snap ps one).0 in
    subst (λ y. sent_all w y.0 snap (p ∷ ps) ≡ true) (sym e)
      (and-intro (target_content x p.target_dataset == snap_content w snap p.source_dataset)
        (sent_all w x snap ps)
        (ground (
          arith,
          target_content-frame o snap p.target_dataset ps one,
          target_content-transfer_one snap p.target_dataset p w,
          eq_iff p.target_dataset p.target_dataset,
        ))
        (ap
            (λ m.
              all
                (λ q.
                  target_content x q.target_dataset == content_of (get (q.source_dataset, snap) m))
                ps)
            (sym (snapshots-transfer_one snap p w))
          ∙ transfer_disks-sent o snap ps one (ground arith) (ap (λ y. y.1) (sym e) ∙ h)))

-- the sources of the plan are all snapped
plan_snapped :
    (o : Outside) (snap : String) (ps qs : List Disk) (w : World)
    → (snapshot_all o snap ps w).1 ≡ true
    → all (λ q. any (λ p. p.source_dataset == q.source_dataset) ps) qs ≡ true
    → snapped (snapshot_all o snap ps w).0 snap qs ≡ true
plan_snapped o snap ps [] w h k = refl
plan_snapped o snap ps (q ∷ qs) w h k = ground (
  arith,
  plan_snapped o snap ps qs w h,
  snap_content-snapshot_all o snap q.source_dataset ps w h,
  ap (λ m. content_of (get q.source_dataset m)) (snapshot_all-Frame o snap ps w).0,
)

chained :
    (v w : World) (snap : String) (ps : List Disk)
    → snapped v snap ps ≡ true
    → sent_all v w snap ps ≡ true
    → w.source_disks ≡ v.source_disks
    → holds_all w ps ≡ true
chained v w snap [] h k e = refl
chained v w snap (p ∷ ps) h k e =
    ground (arith, chained v w snap ps, ap (λ m. content_of (get p.source_dataset m)) e)

any_source-cons :
    (p : Disk) (ps qs : List Disk)
    → all (λ q. any (λ r. r.source_dataset == q.source_dataset) ps) qs ≡ true
    → all (λ q. any (λ r. r.source_dataset == q.source_dataset) (p ∷ ps)) qs ≡ true
any_source-cons p ps [] h = refl
any_source-cons p ps (q ∷ qs) h = ground (arith, any_source-cons p ps qs)

any_source_self :
    (ps : List Disk) → all (λ q. any (λ r. r.source_dataset == q.source_dataset) ps) ps ≡ true
any_source_self [] = refl
any_source_self (p ∷ ps) =
    ground (
      arith,
      any_source-cons p ps ps (any_source_self ps),
      eq_iff p.source_dataset p.source_dataset,
    )

pub run_transfer-Frame :
    (o : Outside) (snap : String) (ps : List Disk) (w : World)
    → Frame w (run_transfer o snap ps w).0
unfolding run_transfer
run_transfer-Frame o snap ps w = elim (Bool-cases (snapshot_all o snap ps w).1) [
  | inl y ↦ rw y (
      Frame-trans w (snapshot_all o snap ps w).0
        (transfer_disks o snap ps (snapshot_all o snap ps w).0).0 (snapshot_all-Frame o snap ps w)
        (transfer_disks-Frame o snap ps (snapshot_all o snap ps w).0))
  | inr n ↦ rw n (snapshot_all-Frame o snap ps w)
]

-- After a transfer that succeeds, the targets hold what the sources hold.
pub run_transfer-holds_all :
    (o : Outside) (snap : String) (ps : List Disk) (w : World)
    → apart ps ≡ true
    → (run_transfer o snap ps w).1 ≡ true
    → holds_all (run_transfer o snap ps w).0 ps ≡ true
unfolding run_transfer
run_transfer-holds_all o snap ps w d h = elim (Bool-cases (snapshot_all o snap ps w).1) [
  | inl y ↦
      let v = (snapshot_all o snap ps w).0 in
      rw y (
        chained v (transfer_disks o snap ps v).0 snap ps
          (subst
            (λ m.
              all (λ p. snap_content v snap p.source_dataset == content_of (get p.source_dataset m))
                ps
              ≡ true)
            refl (plan_snapped o snap ps ps w y (any_source_self ps)))
          (transfer_disks-sent o snap ps v d (ground arith)) (transfer_disks-Frame o snap ps v).0)
  | inr n ↦ absurd (ground arith)
]
