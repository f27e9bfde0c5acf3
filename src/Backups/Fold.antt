-- ===== src/Backups/Fold.antt =====
-- `guest_backup_map` of app/backups.py against a description of each guest by itself.
use mathlib.Core.List.{foldl}
use mathlib.Core.Option
use text.Mathlib.TextEquality.{eq_iff}
use pve_zfs_tool.Common.{
  ℕ, ◌+◌, String, ◌≡◌, refl, ◌∙◌, ◌≢◌, Bool, ◌&&◌, Option, none, some, List, [], ◌∷◌, arith, ltb,
  ◌==◌, string_eq, if◌then◌else◌, filter, length, count_if, map,
}
use pve_zfs_tool.Common.Dict.{Dict, get, get-put, get-nil}
use pve_zfs_tool.Backups.{
  Volume, Job, Rec, empty_rec, is_failed, add_volume, or_empty, collect_volume, finish_rec,
  finish_all, guest_backup_map, job_covers,
}

abbrev pub of_guest : String → List Volume → List Volume
of_guest vmid = filter (λ v. v.vmid == vmid)

abbrev fold_rec : Option Rec → List Volume → Option Rec
fold_rec o [] = o
fold_rec o (v ∷ vs) = fold_rec (some (add_volume (or_empty o) v)) vs

get-collect_volume :
    (k : String) (m : Dict String Rec) (v : Volume)
    → k ≢ ""
    → get k (collect_volume m v)
      ≡ (if v.vmid == k then some (add_volume (or_empty (get k m)) v) else get k m)
unfolding collect_volume
get-collect_volume k m v h = ground (
  arith,
  get-put k v.vmid (add_volume (or_empty (get v.vmid m)) v) m,
  eq_iff v.vmid k,
  eq_iff v.vmid "",
)

get-foldl_collect :
    (k : String) (m : Dict String Rec) (vs : List Volume)
    → k ≢ ""
    → get k (foldl collect_volume m vs) ≡ fold_rec (get k m) (of_guest k vs)
get-foldl_collect k m [] h = refl
get-foldl_collect k m (v ∷ vs) h =
    ground (arith, get-collect_volume k m v h, get-foldl_collect k (collect_volume m v) vs h)

get-finish_all :
    (k : String) (jobs : List Job) (m : Dict String Rec)
    → get k (finish_all jobs m) ≡ Option.map (finish_rec jobs k) (get k m)
unfolding get finish_all
get-finish_all k jobs [] = refl
get-finish_all k jobs ((j, rec) ∷ m) = ground (arith, eq_iff j k, get-finish_all k jobs m)

get-guest_backup_map :
    (k : String) (vs : List Volume) (jobs : List Job)
    → k ≢ ""
    → get k (guest_backup_map vs jobs)
      ≡ Option.map (finish_rec jobs k) (fold_rec none (of_guest k vs))
unfolding guest_backup_map
get-guest_backup_map k vs jobs h = ground (
  arith,
  get-finish_all k jobs (foldl collect_volume [] vs),
  get-foldl_collect k [] vs h,
  get-nil {V = Rec} k,
)

-- the parts of a record that come from one volume
pub record Newest : Type 0 where
  pub ctime : ℕ
  pub volid : String
  pub verify : Option String
  pub verifies : Bool

abbrev newest_of_rec : Rec → Newest
newest_of_rec rec = record {
  ctime = rec.newest;
  volid = rec.newest_volid;
  verify = rec.newest_verify;
  verifies = rec.newest_verifies;
}

abbrev newest_of_volume : Volume → Newest
newest_of_volume v = record {
  ctime = v.ctime;
  volid = v.volid;
  verify = v.verify;
  verifies = v.verifies;
}

-- the first of the volumes with the largest creation time, if that time is not 0
abbrev newer : Volume → Newest → Newest
newer v n = if ltb v.ctime n.ctime then n else newest_of_volume v

abbrev pub newest_volume : List Volume → Newest
newest_volume [] = newest_of_rec empty_rec
newest_volume (v ∷ vs) =
    let n = newest_volume vs in
    if ltb v.ctime n.ctime then n else if ltb 0 v.ctime then newest_of_volume v else n

abbrev pub sum_sizes : List Volume → ℕ
sum_sizes [] = 0
sum_sizes (v ∷ vs) = v.size + sum_sizes vs

abbrev pub failed_check : Volume → Bool
failed_check v = v.verifies && is_failed v.verify

-- What the record of a guest has to say of the guest's volumes.
pub record Describes (rec : Rec) (vs : List Volume) : Type 0 where
  pub count : rec.count ≡ length vs
  pub total_size : rec.total_size ≡ sum_sizes vs
  pub protected : rec.protected ≡ count_if (λ v. v.protected) vs
  pub verify_failed : rec.verify_failed ≡ count_if failed_check vs
  pub newest : newest_of_rec rec ≡ newest_volume vs

abbrev later : Rec → List Volume → Newest
later rec vs = let n = newest_volume vs in if ltb rec.newest n.ctime then n else newest_of_rec rec

record Extends (rec rec' : Rec) (vs : List Volume) : Type 0 where
  count : rec'.count ≡ rec.count + length vs
  total_size : rec'.total_size ≡ rec.total_size + sum_sizes vs
  protected : rec'.protected ≡ rec.protected + count_if (λ v. v.protected) vs
  verify_failed : rec'.verify_failed ≡ rec.verify_failed + count_if failed_check vs
  newest : newest_of_rec rec' ≡ later rec vs

later-add_volume :
    (rec : Rec) (v : Volume) (vs : List Volume) → later (add_volume rec v) vs ≡ later rec (v ∷ vs)
unfolding add_volume
later-add_volume rec v vs = ground arith

add_volume-count : (rec : Rec) (v : Volume) → (add_volume rec v).count ≡ rec.count + 1
unfolding add_volume
add_volume-count rec v = ground arith

add_volume-total_size :
    (rec : Rec) (v : Volume) → (add_volume rec v).total_size ≡ rec.total_size + v.size
unfolding add_volume
add_volume-total_size rec v = ground arith

add_volume-protected :
    (rec : Rec) (v : Volume)
    → (add_volume rec v).protected ≡ rec.protected + (if v.protected then 1 else 0)
unfolding add_volume
add_volume-protected rec v = ground arith

add_volume-verify_failed :
    (rec : Rec) (v : Volume)
    → (add_volume rec v).verify_failed ≡ rec.verify_failed + (if failed_check v then 1 else 0)
unfolding add_volume
add_volume-verify_failed rec v = ground arith

foldl-Extends : (rec : Rec) (vs : List Volume) → Extends rec (foldl add_volume rec vs) vs
foldl-Extends rec [] = ground arith
foldl-Extends rec (v ∷ vs) =
    let ih = foldl-Extends (add_volume rec v) vs in
    record {
      count = omega (arith, ih.count, add_volume-count rec v);
      total_size = omega (arith, ih.total_size, add_volume-total_size rec v);
      protected = omega (arith, ih.protected, add_volume-protected rec v);
      verify_failed = omega (arith, ih.verify_failed, add_volume-verify_failed rec v);
      newest = ih.newest ∙ later-add_volume rec v vs;
    }

fold_rec-some :
    (rec : Rec) (vs : List Volume) → fold_rec (some rec) vs ≡ some (foldl add_volume rec vs)
fold_rec-some rec [] = refl
fold_rec-some rec (v ∷ vs) = fold_rec-some (add_volume rec v) vs

later-empty : (vs : List Volume) → later empty_rec vs ≡ newest_volume vs
later-empty [] = refl
later-empty (v ∷ vs) = ground (arith, later-empty vs)

foldl-Describes : (vs : List Volume) → Describes (foldl add_volume empty_rec vs) vs
foldl-Describes vs =
    let x = foldl-Extends empty_rec vs in
    record {
      count = omega (arith, x.count);
      total_size = omega (arith, x.total_size);
      protected = omega (arith, x.protected);
      verify_failed = omega (arith, x.verify_failed);
      newest = x.newest ∙ later-empty vs;
    }

finish_rec-Describes :
    (jobs : List Job) (k : String) {rec : Rec} {vs : List Volume}
    → Describes rec vs
    → Describes (finish_rec jobs k rec) vs
unfolding finish_rec
finish_rec-Describes jobs k d = record {
  count = d.count;
  total_size = d.total_size;
  protected = d.protected;
  verify_failed = d.verify_failed;
  newest = d.newest;
}

abbrev covering : List Job → String → List String
covering jobs k = map (λ j. j.id) (filter (λ j. job_covers j k) jobs)

-- What the map holds for a guest, told from the guest's own volumes.
abbrev pub Summary : Option Rec → String → List Volume → List Job → Type 0
Summary none k vs jobs = vs ≡ []
Summary (some rec) k vs jobs = (vs ≢ []) × Describes rec vs × (rec.covered_by ≡ covering jobs k)

Summary-fold :
    (k : String) (jobs : List Job) (vs : List Volume)
    → Summary (Option.map (finish_rec jobs k) (fold_rec none vs)) k vs jobs
unfolding finish_rec
Summary-fold k jobs [] = refl
Summary-fold k jobs (v ∷ vs) =
    rw (fold_rec-some (add_volume empty_rec v) vs)
      (λ e. cc, finish_rec-Describes jobs k (foldl-Describes (v ∷ vs)), refl)

-- A guest with a name has a record exactly if some volume carries its VMID. The record counts
-- the guest's volumes, their sizes, the protected ones and the failed verifications, takes the
-- newest time, its volume and its verification from the first volume with the largest creation
-- time, and lists the jobs that cover the guest.
pub guest_backup_map-Summary :
    (k : String) (vs : List Volume) (jobs : List Job)
    → k ≢ ""
    → Summary (get k (guest_backup_map vs jobs)) k (of_guest k vs) jobs
guest_backup_map-Summary k vs jobs h =
    rw (get-guest_backup_map k vs jobs h) (Summary-fold k jobs (of_guest k vs))
