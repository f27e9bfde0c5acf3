-- ===== src/Backups/States.antt =====
-- The thresholds and the verdict on a guest's backups in app/backups.py. Times are whole seconds,
-- thresholds whole hours.
use pve_zfs_tool.Common.{
  ℕ, ◌-◌, ◌*◌, String, Bool, true, false, not, ◌&&◌, Option, none, some, List, [], ◌∷◌, ltb, min,
  max, ◌==◌, nat_eq, string_eq, if◌then◌else◌, filter, contains,
}
use pve_zfs_tool.Common.Dict.{Dict, keys, get, put}
use pve_zfs_tool.Backups.{Rec, is_failed}

-- a value of the notification config: absent, a number, or one that `float` refuses
pub data Setting : Type 0 where
  absent bad : Setting
  number : ℕ → Setting

abbrev pub backup_warn_hours : ℕ
backup_warn_hours = 36

abbrev pub backup_crit_hours : ℕ
backup_crit_hours = 168

abbrev pub setting_or : Setting → ℕ → Option ℕ
setting_or absent d = some d
setting_or bad d = none
setting_or (number n) d = some n

-- the body of `try`: an exception leaves what was assigned before it
unfoldable pub read_thresholds : Setting → Setting → ℕ → ℕ → ℕ × ℕ
read_thresholds w c warn crit = elim (setting_or w warn) [
  | none ↦ (warn, crit)
  | some warn' ↦ elim (setting_or c crit) [ none ↦ (warn', crit) | some crit' ↦ (warn', crit') ]
]

-- both clamped to the bounds, and warn pulled down to crit
unfoldable pub clamp_thresholds : ℕ → ℕ → ℕ × ℕ → ℕ × ℕ
clamp_thresholds lo hi (warn, crit) =
    let w = min (max warn lo) hi in let c = min (max crit lo) hi in (if ltb c w then c else w, c)

unfoldable pub backup_thresholds : Setting → Setting → ℕ × ℕ
unfolding read_thresholds clamp_thresholds
backup_thresholds w c =
    clamp_thresholds 1 8760 (read_thresholds w c backup_warn_hours backup_crit_hours)

pub data State : Type 0 where
  green yellow red unknown : State

pub data Reason : Type 0 where
  no_backup verify_failed no_timestamp stale_crit stale_warn verify_pending no_job fine : Reason
  unreadable : Reason

-- the dict that `backup_state` returns; a key that a branch leaves out has its default
pub record Verdict : Type 0 where
  pub state : State
  pub reason : Reason
  pub count : ℕ
  pub age_seconds : Option ℕ
  pub newest : ℕ
  pub newest_volid : String
  pub storages : List String
  pub types : List String
  pub protected : ℕ
  pub covered : Bool
  pub covered_by : List String

abbrev pub no_record : State → Reason → Verdict
no_record s r = record {
  state = s;
  reason = r;
  count = 0;
  age_seconds = none;
  newest = 0;
  newest_volid = "";
  storages = [];
  types = [];
  protected = 0;
  covered = false;
  covered_by = [];
}

abbrev pub is_empty {ℓ} : {A : Type ℓ} → List A → Bool
is_empty [] = true
is_empty (_ ∷ _) = false

-- `not rec.get("newest_verify")`
abbrev pub is_blank : Option String → Bool
is_blank none = true
is_blank (some s) = s == ""

abbrev pub base : Rec → ℕ → Verdict
base rec age = record {
  state = green;
  reason = fine;
  count = rec.count;
  age_seconds = some age;
  newest = rec.newest;
  newest_volid = rec.newest_volid;
  storages = rec.storages;
  types = rec.types;
  protected = rec.protected;
  covered = not (is_empty rec.covered_by);
  covered_by = rec.covered_by;
}

-- the chain of returns once there is a backup; `-` stops at 0, as `max(0.0, ...)` does
unfoldable pub judge : Rec → ℕ → ℕ → ℕ → Bool → Verdict
judge rec now warn_hours crit_hours covered_known =
    let age = now - rec.newest in
    let b = base rec age in
    if rec.newest_verifies && is_failed rec.newest_verify
    then record b { state = red; reason = verify_failed }
    else if rec.newest == 0
    then record b { state = yellow; reason = no_timestamp; age_seconds = none }
    else if ltb (crit_hours * 3600) age
    then record b { state = red; reason = stale_crit }
    else if ltb (warn_hours * 3600) age
    then record b { state = yellow; reason = stale_warn }
    else if rec.newest_verifies && is_blank rec.newest_verify
    then record b { state = yellow; reason = verify_pending }
    else if covered_known && is_empty rec.covered_by
    then record b { state = yellow; reason = no_job }
    else b

unfoldable pub backup_state : Option Rec → ℕ → ℕ → ℕ → Bool → Verdict
unfolding judge
backup_state none now warn_hours crit_hours covered_known = no_record red no_backup
backup_state (some rec) now warn_hours crit_hours covered_known =
    if rec.count == 0
    then no_record red no_backup
    else judge rec now warn_hours crit_hours covered_known

-- a Python set as a list without duplicates
unfoldable pub union : List String → List String → List String
union [] ys = ys
union (x ∷ xs) ys = let rest = union xs ys in if contains x rest then rest else x ∷ rest

abbrev pub non_blank : List String → List String
non_blank = filter (λ v. not (v == ""))

module _ (bmap : Dict String Rec) (now warn_hours crit_hours : ℕ)
    (covered_known unknown_all : Bool) where
  unfoldable pub one_state : String → Verdict
  one_state vmid =
      if unknown_all
      then no_record unknown unreadable
      else backup_state (get vmid bmap) now warn_hours crit_hours covered_known

  unfoldable pub states_of : List String → Dict String Verdict
  states_of [] = []
  states_of (k ∷ ks) = put k (one_state k) (states_of ks)

  unfoldable pub guest_backup_states : List String → Dict String Verdict
  unfolding union
  guest_backup_states vmids = states_of (union (keys bmap) (union (non_blank vmids) []))
