-- ===== src/Migration/Preflight/Ready.antt =====
-- What the preflight of app/migrate.py makes sure of before a migration may start.
use pve_zfs_tool.Common.{
  String, ◌≡◌, refl, sym, ap, ◌∙◌, Bool, true, false, not, ◌&&◌, ◌||◌, Option, none, some, ◌⊎◌, inl,
  inr, List, [], ◌∷◌, ◌++◌, map, any, any-append, all, string_eq, arith, if◌then◌else◌, contains,
  eq_iff, beq_refl, Option-cases,
}
use mathlib.Core.Path.{subst}
use pve_zfs_tool.Common.Words.{is_empty}
use pve_zfs_tool.Validators.{Invalid, validate_vmid}
use pve_zfs_tool.Migration.Storage.{Storage, find_storage, check_storage_match}
use pve_zfs_tool.Migration.Preflight.{
  warn, error, Row, Found, Report, invalid, report, add, target_dataset, last_common, plan_row,
  is_blocked, is_none, disk_check, bridge_checks, plan_checks, is_error, all_checks, wanted_vmid,
  report_of, preflight_for, preflight,
}

is_error-add : (id : String) (ok : Bool) → is_error (add id ok error) ≡ not ok
is_error-add id true = refl
is_error-add id false = refl

picked :
    (a b : Bool) (later here : String)
    → is_empty (if a then later else if b then here else "") ≡ false
    → ((if a then later else if b then here else "") ≡ later)
      ⊎ ((b ≡ true) × ((if a then later else if b then here else "") ≡ here))
picked true b later here h = inl refl
picked false true later here h = inr (refl, refl)
picked false false later here h = ground arith

-- The snapshot that is found stands in both lists.
last_common-both :
    (source target : List String)
    → is_empty (last_common source target) ≡ false
    → (contains (last_common source target) source ≡ true)
      × (contains (last_common source target) target ≡ true)
unfolding last_common
last_common-both source [] h = ground arith
last_common-both source (s ∷ target) h =
    elim (picked (any (λ t. contains t source) target) (contains s source)
      (last_common source target) s h) [
        | inl same ↦
            let both = last_common-both source target (ap is_empty (sym same) ∙ h) in
            (
              ap (λ c. contains c source) same ∙ both.0,
              ap (λ c. contains c (s ∷ target)) same ∙ ground (arith, both.1),
            )
        | inr (known, same) ↦ (
          ap (λ c. contains c source) same ∙ known,
          ap (λ c. contains c (s ∷ target)) same ∙ ground (arith, beq_refl s),
        )
      ]

-- a dataset that exists on the target has the row's snapshot, and so has the source's
abbrev pub row_safe : Found → Row → Bool
row_safe o p =
    not (o.exists p.target_dataset)
    || (contains p.common_snapshot (o.source_snapshots p.source_dataset)
        && contains p.common_snapshot (o.target_snapshots p.target_dataset))

plan_row-safe :
    (o : Found) (root vmid new dataset : String)
    → is_blocked (plan_row o root vmid new dataset) ≡ false
    → row_safe o (plan_row o root vmid new dataset) ≡ true
unfolding plan_row
plan_row-safe o root vmid new dataset h =
    let target = target_dataset root vmid new dataset in
    ground (arith, last_common-both (o.source_snapshots dataset) (o.target_snapshots target))

plan-safe :
    (o : Found) (root vmid new : String) (datasets : List String)
    → any is_blocked (map (plan_row o root vmid new) datasets) ≡ false
    → all (row_safe o) (map (plan_row o root vmid new) datasets) ≡ true
plan-safe o root vmid new [] h = refl
plan-safe o root vmid new (d ∷ ds) h =
    ground (arith, plan_row-safe o root vmid new d, plan-safe o root vmid new ds)

plan-sources :
    (o : Found) (root vmid new : String) (datasets : List String)
    → map (λ p. p.source_dataset) (map (plan_row o root vmid new) datasets) ≡ datasets
unfolding plan_row
plan-sources o root vmid new [] = refl
plan-sources o root vmid new (d ∷ ds) = ap (◌∷◌ d) (plan-sources o root vmid new ds)

disk_check-ok :
    (o : Found)
    → is_error (disk_check o) ≡ false
    → (o.unresolved ≡ false) × (is_none o.disks ≡ false)
unfolding disk_check
disk_check-ok o h = ground arith

plan_checks-ok :
    (plan : List Row) → any is_error (plan_checks plan) ≡ false → any is_blocked plan ≡ false
unfolding plan_checks
plan_checks-ok plan h = ground arith

storage-ok :
    (ss : List Storage) (name root : String)
    → (check_storage_match ss name root).0 ≡ true
    → (s : Storage) × (find_storage name ss ≡ some s) × (s.pool ≡ root)
unfolding check_storage_match
storage-ok ss name root h = elim (Option-cases (find_storage name ss)) [
  | inl unknown ↦ absurd (ground arith)
  | inr (s, known) ↦ (s, known, ground (arith, eq_iff s.pool root))
]

-- Without an error, every check that may block is passed.
all_checks-ok :
    (o : Found) (target_vmid root target_storage : String) (plan : List Row)
    → any is_error (all_checks o target_vmid root target_storage plan) ≡ false
    → (is_error (disk_check o) ≡ false)
      × (o.in_use target_vmid ≡ false)
      × (o.exists root ≡ true)
      × ((check_storage_match o.storages target_storage root).0 ≡ true)
      × ((o.target_reaches_source || o.source_reaches_target) ≡ true)
      × (any is_error (plan_checks plan) ≡ false)
unfolding all_checks
all_checks-ok o target_vmid root target_storage plan h =
    let storage_ok = (check_storage_match o.storages target_storage root).0 in
    let tail =
      add "ssh" (o.target_reaches_source || o.source_reaches_target) error ∷ plan_checks plan in
    let middle = add "storage" storage_ok error ∷ bridge_checks o ++ tail in
    ground (
      arith,
      is_error-add "vmid" (not (o.in_use target_vmid)),
      is_error-add "target_root" (o.exists root),
      is_error-add "storage" storage_ok,
      is_error-add "ssh" (o.target_reaches_source || o.source_reaches_target),
      any-append is_error (if o.pve_snapshots then add "pve_snapshots" false warn ∷ [] else [])
          middle,
      any-append is_error (bridge_checks o) tail,
    )

-- what holds where a migration may start
abbrev pub Ready : Found → (target_root target_storage : String) → Report → Type 0
Ready o root target_storage r =
    (is_none o.disks ≡ false)
    × (o.unresolved ≡ false)
    × (o.in_use r.target_vmid ≡ false)
    × (o.exists root ≡ true)
    × ((s : Storage) × (find_storage target_storage o.storages ≡ some s) × (s.pool ≡ root))
    × ((r.pull || r.push) ≡ true)
    × (map (λ p. p.source_dataset) r.plan ≡ o.disks)
    × (all (row_safe o) r.plan ≡ true)

report_of-Ready :
    (o : Found) (vmid new target_vmid root target_storage : String)
    → (report_of o vmid new target_vmid root target_storage).can_cutover ≡ true
    → Ready o root target_storage (report_of o vmid new target_vmid root target_storage)
report_of-Ready o vmid new target_vmid root target_storage h =
    let plan = map (plan_row o root vmid new) o.disks in
    let ok = all_checks-ok o target_vmid root target_storage plan (ground arith) in
    let disks = disk_check-ok o ok.0 in
    (
      disks.1,
      disks.0,
      ok.1,
      ok.2,
      storage-ok o.storages target_storage root ok.3,
      ground (arith, ok.4),
      plan-sources o root vmid new o.disks,
      plan-safe o root vmid new o.disks (plan_checks-ok plan ok.5),
    )

-- A report comes from `report_of`.
preflight_for-report :
    (t : Option String) (o : Found) (vmid new root target_storage : String) (r : Report)
    → preflight_for t o vmid new root target_storage ≡ report r
    → (target_vmid : String) × (report_of o vmid new target_vmid root target_storage ≡ r)
preflight_for-report none o vmid new root target_storage r h = absurd (ground arith)
preflight_for-report (some t) o vmid new root target_storage r h = (t, ground arith)

checked-report :
    (v : Invalid ⊎ String) (o : Found) (new root target_storage : String) (r : Report)
    → elim v [
      | inl e ↦ invalid
      | inr vmid ↦ preflight_for (wanted_vmid vmid new) o vmid new root target_storage
    ]
      ≡ report r
    → (vmid : String) × (target_vmid : String) × (report_of o vmid new target_vmid root
          target_storage
        ≡ r)
checked-report (inl e) o new root target_storage r h = absurd (ground arith)
checked-report (inr vmid) o new root target_storage r h =
    let (t, same) =
      preflight_for-report (wanted_vmid vmid new) o vmid new root target_storage r h in
    (vmid, t, same)

-- Where the preflight lets a migration start, all disks of the guest are known and planned, its
-- number is free on the target, the target's dataset exists, the chosen storage writes into it,
-- one host reaches the other, and no dataset of the target is received into by force that does
-- not share a snapshot with its source.
pub preflight-Ready :
    (o : Found) (vmid : Option String) (new root target_storage : String) (r : Report)
    → preflight o vmid new root target_storage ≡ report r
    → r.can_cutover ≡ true
    → Ready o root target_storage r
unfolding preflight
preflight-Ready o vmid new root target_storage r h k =
    let (v, t, same) = checked-report (validate_vmid vmid) o new root target_storage r h in
    subst (Ready o root target_storage) same
      (report_of-Ready o v new t root target_storage (ap (λ x. x.can_cutover) same ∙ k))
