-- ===== src/Backups.antt =====
-- app/backups.py: the backup volumes of a guest folded into one record, and the vzdump jobs that
-- cover it. Times are whole seconds.

pub mod Collect
pub mod Fold
pub mod States
pub mod Verdicts
use pve_zfs_tool.Common.{
  ℕ, ◌+◌, ◌-◌, ◌*◌, String, Bool, true, false, not, ◌&&◌, ◌||◌, Option, none, some, List, [], ◌∷◌,
  ◌++◌, map, ltb, min, max, ◌==◌, nat_eq, string_eq, if◌then◌else◌, filter, contains,
}
use pve_zfs_tool.Common.Dict.{Dict, keys, get, put}
use pve_zfs_tool.Common.Sort.{sorted}
use pve_zfs_tool.Common.Text.{str_le}
use mathlib.Core.List.{foldl}

-- a row of `parse_backup_content`
pub record Volume : Type 0 where
  pub volid : String
  pub storage : String
  pub storage_type : String
  pub verifies : Bool
  pub vmid : String
  pub ctime : ℕ
  pub size : ℕ
  pub verify : Option String
  pub protected : Bool

-- a row of `parse_backup_jobs`
pub record Job : Type 0 where
  pub id : String
  pub enabled : Bool
  pub all_guests : Bool  -- the key `all`
  pub vmid : List String
  pub exclude : List String

-- what `guest_backup_map` keeps for each guest
pub record Rec : Type 0 where
  pub count : ℕ
  pub newest : ℕ
  pub newest_volid : String
  pub newest_verify : Option String
  pub newest_verifies : Bool
  pub storages : List String
  pub types : List String
  pub verify_failed : ℕ
  pub protected : ℕ
  pub total_size : ℕ
  pub covered_by : List String

unfoldable pub job_covers : Job → String → Bool
job_covers job vmid =
    if vmid == "" || not job.enabled
    then false
    else if job.all_guests
    then not (contains vmid job.exclude)
    else contains vmid job.vmid

abbrev pub empty_rec : Rec
empty_rec = record {
  count = 0;
  newest = 0;
  newest_volid = "";
  newest_verify = none;
  newest_verifies = false;
  storages = [];
  types = [];
  verify_failed = 0;
  protected = 0;
  total_size = 0;
  covered_by = [];
}

abbrev pub is_failed : Option String → Bool
is_failed none = false
is_failed (some s) = s == "failed"

-- `if x and x not in xs: xs.append(x)`
pub add_new : String → List String → List String
add_new x xs = if x == "" || contains x xs then xs else xs ++ x ∷ []

-- the body of the loop over the volumes, on the record of the volume's guest
unfoldable pub add_volume : Rec → Volume → Rec
unfolding add_new
add_volume rec v =
    let counted = record rec {
      count = rec.count + 1;
      total_size = rec.total_size + v.size;
      protected = (if v.protected then rec.protected + 1 else rec.protected);
      verify_failed =
          (if v.verifies && is_failed v.verify then rec.verify_failed + 1 else rec.verify_failed);
      storages = add_new v.storage rec.storages;
      types = add_new v.storage_type rec.types;
    } in
    if ltb rec.newest v.ctime
    then record counted {
      newest = v.ctime;
      newest_volid = v.volid;
      newest_verify = v.verify;
      newest_verifies = v.verifies;
    }
    else counted

abbrev pub or_empty : Option Rec → Rec
or_empty none = empty_rec
or_empty (some rec) = rec

unfoldable pub collect_volume : Dict String Rec → Volume → Dict String Rec
collect_volume by_vmid v =
    if v.vmid == ""
    then by_vmid
    else put v.vmid (add_volume (or_empty (get v.vmid by_vmid)) v) by_vmid

-- the second loop: coverage by the jobs, and the sorted lists
unfoldable pub finish_rec : List Job → String → Rec → Rec
finish_rec jobs vmid rec = record rec {
  covered_by = map (λ j. j.id) (filter (λ j. job_covers j vmid) jobs);
  storages = sorted str_le rec.storages;
  types = sorted str_le rec.types;
}

unfoldable pub finish_all : List Job → Dict String Rec → Dict String Rec
finish_all jobs [] = []
finish_all jobs ((vmid, rec) ∷ m) = (vmid, finish_rec jobs vmid rec) ∷ finish_all jobs m

unfoldable pub guest_backup_map : List Volume → List Job → Dict String Rec
guest_backup_map volumes jobs = finish_all jobs (foldl collect_volume [] volumes)
