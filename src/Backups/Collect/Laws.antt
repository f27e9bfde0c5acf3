-- ===== src/Backups/Collect/Laws.antt =====
-- What `collect_backups` and `host_backup_states` of app/backups.py make of failed reads.
use mathlib.Core.List.{append-nil, append_assoc}
use pve_zfs_tool.Common.{
  ℕ, String, ◌≡◌, refl, sym, ap, ◌∙◌, beq_ne, ◌≢◌, Bool, true, false, not, ◌||◌, Option, none, some,
  List, [], ◌∷◌, ◌++◌, arith, string_eq, if◌then◌else◌, contains, ◌&&◌, ◌==◌, all,
}
use pve_zfs_tool.Common.Dict.{Dict, get, keys}
use pve_zfs_tool.Backups.{Volume, Job, Rec, guest_backup_map, finish_all}
use pve_zfs_tool.Backups.States.{
  Verdict, Setting, red, unknown, no_backup, unreadable, no_job, no_record, is_empty,
  backup_thresholds, one_state, backup_state,
}
use pve_zfs_tool.Backups.Fold.{of_guest, guest_backup_map-Summary, Summary}
use pve_zfs_tool.Backups.Verdicts.{get-guest_backup_states}
use pve_zfs_tool.Backups.Collect.{
  Storage, Node, Collected, nothing, read_storage, add_result, add_results, collect_backups,
  host_backup_states,
}

-- what a storage contributes
abbrev listed : Option (List Volume) → List Volume
listed none = []
listed (some vols) = vols

abbrev was_read : Option (List Volume) → Bool
was_read none = false
was_read (some _) = true

add_result-volumes :
    (st : Storage) (o : Option (List Volume)) (out : Collected) (rest : List Volume)
    → (add_result st o out).volumes ++ rest ≡ out.volumes ++ (listed o ++ rest)
add_result-volumes st none out rest = refl
add_result-volumes st (some vols) out rest = append_assoc out.volumes vols rest

add_result-unreadable :
    (st : Storage) (o : Option (List Volume)) (out : Collected) (rest : List Storage)
    → (add_result st o out).unreadable ++ rest
      ≡ out.unreadable ++ (if was_read o then rest else st ∷ rest)
add_result-unreadable st none out rest = append_assoc out.unreadable (st ∷ []) rest
add_result-unreadable st (some vols) out rest = refl

module _ (node : Node) where
  abbrev pub all_listed : List Storage → List Volume
  all_listed [] = []
  all_listed (st ∷ sts) = listed (read_storage node st) ++ all_listed sts

  abbrev pub any_read : List Storage → Bool
  any_read [] = false
  any_read (st ∷ sts) = was_read (read_storage node st) || any_read sts

  abbrev pub unread : List Storage → List Storage
  unread [] = []
  unread (st ∷ sts) =
      let rest = unread sts in if was_read (read_storage node st) then rest else st ∷ rest

  add_results-volumes :
      (sts : List Storage) (out : Collected)
      → (add_results node sts out).volumes ≡ out.volumes ++ all_listed sts
  unfolding add_results
  add_results-volumes [] out = sym (append-nil out.volumes)
  add_results-volumes (st ∷ sts) out =
      add_results-volumes sts (add_result st (read_storage node st) out)
      ∙ add_result-volumes st (read_storage node st) out (all_listed sts)

  add_results-unreadable :
      (sts : List Storage) (out : Collected)
      → (add_results node sts out).unreadable ≡ out.unreadable ++ unread sts
  unfolding add_results
  add_results-unreadable [] out = sym (append-nil out.unreadable)
  add_results-unreadable (st ∷ sts) out =
      add_results-unreadable sts (add_result st (read_storage node st) out)
      ∙ add_result-unreadable st (read_storage node st) out (unread sts)

  add_results-readable :
      (sts : List Storage) (out : Collected)
      → (add_results node sts out).readable ≡ (out.readable || any_read sts)
  unfolding add_results
  add_results-readable [] out = ground arith
  add_results-readable (st ∷ sts) out =
      ground (arith, add_results-readable sts (add_result st (read_storage node st) out))

-- With a node name and at least one backup storage, the volumes are those of the storages that
-- could be listed, in order; the others are named as unreadable; the answer counts as readable
-- exactly if some storage was listed; and the jobs are known exactly if jobs.cfg was read.
pub collect_backups_lem :
    (node : Node)
    → node.name ≢ ""
    → is_empty node.storages.rows ≡ false
    → ((collect_backups node).volumes ≡ all_listed node node.storages.rows)
      × ((collect_backups node).unreadable ≡ unread node node.storages.rows)
      × ((collect_backups node).readable ≡ any_read node node.storages.rows)
      × ((collect_backups node).jobs_known ≡ node.jobs.success)
unfolding collect_backups
collect_backups_lem node named stored = rw (beq_ne node.name "" named) (
    rw stored (
      add_results-volumes node node.storages.rows nothing,
      add_results-unreadable node node.storages.rows nothing,
      add_results-readable node node.storages.rows nothing,
      refl,
    ))

-- the storage is disabled or inactive, or its listing failed and listed nothing
abbrev pub is_silent : Node → Storage → Bool
is_silent node st =
    not st.enabled
    || not st.active
    || (not (node.content st).success && is_empty (node.content st).rows)

-- no storage of the node could be read: its name or its storages are not known, or all are silent
abbrev pub is_silent_node : Node → Bool
is_silent_node node = (node.name == "") || elim node.storages.rows [
  | [] ↦ not node.storages.success
  | st ∷ sts ↦ all (is_silent node) (st ∷ sts)
]

silent_read :
    (node : Node) (st : Storage) → was_read (read_storage node st) ≡ not (is_silent node st)
unfolding read_storage
silent_read node st = ground arith

any_read-silent :
    (node : Node) (sts : List Storage) → any_read node sts ≡ not (all (is_silent node) sts)
any_read-silent node [] = refl
any_read-silent node (st ∷ sts) = ground (arith, any_read-silent node sts, silent_read node st)

all_listed-silent :
    (node : Node) (sts : List Storage) → all (is_silent node) sts ≡ true → all_listed node sts ≡ []
all_listed-silent node [] h = refl
all_listed-silent node (st ∷ sts) h =
    ground (arith, all_listed-silent node sts, silent_read node st)

-- The answer counts as readable exactly if some storage could be read.
readable_lem : (node : Node) → (collect_backups node).readable ≡ not (is_silent_node node)
unfolding collect_backups
readable_lem node = ground (
  arith,
  add_results-readable node node.storages.rows nothing,
  any_read-silent node node.storages.rows,
)

silent-volumes : (node : Node) → is_silent_node node ≡ true → (collect_backups node).volumes ≡ []
unfolding collect_backups
silent-volumes node h = ground (
  arith,
  add_results-volumes node node.storages.rows nothing,
  all_listed-silent node node.storages.rows,
)

none_of_Summary : (o : Option Rec) (k : String) (jobs : List Job) → Summary o k [] jobs → o ≡ none
none_of_Summary none k jobs s = refl
none_of_Summary (some rec) k jobs s = absurd (s.0 refl)

unknown_jobs :
    (o : Option Rec) (now warn crit : ℕ) → (backup_state o now warn crit false).reason ≢ no_job
unfolding backup_state
unknown_jobs none now warn crit = ground arith
unknown_jobs (some rec) now warn crit = ground arith

module _ (node : Node) (w c : Setting) (now : ℕ) (vmids : List String) (k : String) where
  abbrev pub verdict_of : Option Verdict
  verdict_of = get k (host_backup_states node w c now vmids)

  abbrev pub bmap_of : Dict String Rec
  bmap_of = guest_backup_map (collect_backups node).volumes (collect_backups node).jobs

  abbrev expected : Verdict
  expected =
      one_state bmap_of now (backup_thresholds w c).0 (backup_thresholds w c).1
        (collect_backups node).jobs_known (not (collect_backups node).readable) k

  get-host_backup_states :
      k ≢ ""
      → verdict_of ≡ (if contains k (keys bmap_of) || contains k vmids then some expected else none)
  unfolding host_backup_states
  get-host_backup_states named =
      get-guest_backup_states bmap_of now (backup_thresholds w c).0 (backup_thresholds w c).1
        (collect_backups node).jobs_known (not (collect_backups node).readable) k vmids named

  bmap-empty : (collect_backups node).volumes ≡ [] → bmap_of ≡ []
  unfolding guest_backup_map finish_all
  bmap-empty h = ap (λ vs. guest_backup_map vs (collect_backups node).jobs) h

  -- If no storage of the node could be read, since its name or its storages are not known or each
  -- storage is disabled, inactive or fails to list anything, then exactly the guests that are asked
  -- for have a verdict, and it is unknown, so that none is reported without a backup.
  pub unreadable-unknown :
      k ≢ ""
      → is_silent_node node ≡ true
      → verdict_of ≡ (if contains k vmids then some (no_record unknown unreadable) else none)
  unfolding one_state
  unreadable-unknown named h = ground (
    arith,
    get-host_backup_states named,
    readable_lem node,
    ap keys (bmap-empty (silent-volumes node h)),
  )

  no_volumes-none : k ≢ "" → of_guest k (collect_backups node).volumes ≡ [] → get k bmap_of ≡ none
  no_volumes-none named none_left = none_of_Summary (get k bmap_of) k (collect_backups node).jobs (
      rw none_left at (
        guest_backup_map-Summary k (collect_backups node).volumes (collect_backups node).jobs
          named))

  -- If some storage was read, a guest that is asked for and has no volume in any listing is red
  -- for having no backup.
  pub unbacked-red :
      k ≢ ""
      → (collect_backups node).readable ≡ true
      → contains k vmids ≡ true
      → of_guest k (collect_backups node).volumes ≡ []
      → verdict_of ≡ some (no_record red no_backup)
  unfolding one_state backup_state
  unbacked-red named read asked none_left =
      ground (arith, get-host_backup_states named, no_volumes-none named none_left)

  -- A failed read of jobs.cfg never makes a guest a finding for want of a job.
  pub jobs_unread-not_no_job :
      {v : Verdict}
      → k ≢ ""
      → (collect_backups node).jobs_known ≡ false
      → verdict_of ≡ some v
      → v.reason ≢ no_job
  unfolding one_state
  jobs_unread-not_no_job named h e = ground (
    arith,
    get-host_backup_states named,
    unknown_jobs (get k bmap_of) now (backup_thresholds w c).0 (backup_thresholds w c).1,
  )
