-- ===== src/GuestIntent.antt =====
-- app/guest_intent.py: the guest tags that declare a missing backup or copy as intended, and the
-- reasons on record. Tags are ASCII and come as the parser of the guest's configuration leaves them.
pub mod Tags
use Prim.Native.Nat.{zero, suc}
use Prim.Native.String.{[] as empty, ◌∷◌ as ◌::◌}
use pve_zfs_tool.Common.{
  ℕ, String, Bool, true, false, not, ◌&&◌, ◌||◌, Option, none, some, List, [], ◌∷◌, ◌++◌, leb,
  nat_beq, ◌==◌, string_eq, pair_eq, if◌then◌else◌, filter, any,
}
use pve_zfs_tool.Common.Dict.{Dict, get, put, remove}
use pve_zfs_tool.Common.Scan.{is_tag_text}
use pve_zfs_tool.Common.Words.{is_space, strip}
use pve_zfs_tool.Common.Case.{same_ci, ci_le}
use pve_zfs_tool.Common.Sort.{sorted}

pub record Names : Type 0 where
  pub backup : String
  pub replication : String

-- a configured tag that PVE accepts, or the tool's own
unfoldable pub valid_tag : Option String → String → String
valid_tag none own = own
valid_tag (some tag) own = if not (tag == "") && is_tag_text tag then tag else own

unfoldable pub tag_names : Option String → Option String → Names
tag_names bk repl = record {
  backup = valid_tag bk "no-backup";
  replication = valid_tag repl "no-replication";
}

-- `tag.lower() in lowered`
abbrev pub has_tag : String → List String → Bool
has_tag tag tags = any (λ t. same_ci t tag) tags

pub record Flags : Type 0 where
  pub no_backup : Bool
  pub no_replication : Bool

unfoldable pub exceptions_from_tags : Names → Dict String (List String) → Dict String Flags
exceptions_from_tags names [] = []
exceptions_from_tags names ((vmid, tags) ∷ m) =
    let rest = exceptions_from_tags names m in
    let flags : Flags = record {
      no_backup = has_tag names.backup tags;
      no_replication = has_tag names.replication tags;
    } in
    if flags.no_backup || flags.no_replication then (vmid, flags) ∷ rest else rest

unfoldable pub apply_tag : List String → String → Bool → List String
apply_tag current tag enable =
    let kept = filter (λ t. not (t == "") && not (same_ci t tag)) current in
    if enable then kept ++ tag ∷ [] else kept

-- the kinds that are asked for, those of `KINDS` only
pub record Kinds : Type 0 where
  pub backup : Bool
  pub replication : Bool

pub record Reason : Type 0 where
  pub kinds : Kinds
  pub reason : String
  pub by : String
  pub at_time : ℕ

-- the guests' tags on the host, and the reasons on record by host and VMID
pub record World : Type 0 where
  pub tags : Dict String (List String)
  pub reasons : Dict (String × String) Reason

abbrev pub any_kind : Kinds → Bool
any_kind k = k.backup || k.replication

-- `s[:n]`
unfoldable pub cut_to : ℕ → String → String
cut_to zero s = ""
cut_to (suc n) empty = ""
cut_to (suc n) (c :: s) = c :: cut_to n s

-- the record as `save_reason` builds it
abbrev pub stored : Reason → Reason
stored rec = record rec {
  reason = cut_to 500 (strip is_space rec.reason);
  by = cut_to 100 (strip is_space rec.by);
}

unfoldable pub save_reason : String → String → Reason → World → World
save_reason host vmid rec w =
    if any_kind rec.kinds
    then record w { reasons = put (host, vmid) (stored rec) w.reasons }
    else record w { reasons = remove (host, vmid) w.reasons }

unfoldable pub drop_reason : String → String → World → World
drop_reason host vmid w = record w { reasons = remove (host, vmid) w.reasons }

pub data Result : Type 0 where
  invalid_vmid not_found unreadable not_written : Result
  success : List String → Kinds → Result

-- what the commands on the host answer
pub record Outside : Type 0 where
  pub exists : Bool
  pub readable : Bool
  pub writable : Bool

abbrev pub tags_of : String → World → List String
tags_of vmid w = elim (get vmid w.tags) [ none ↦ [] | some ts ↦ ts ]

-- the two lists, in lower case and sorted, compared
unfoldable pub same_all : List String → List String → Bool
same_all [] [] = true
same_all [] (y ∷ ys) = false
same_all (x ∷ xs) [] = false
same_all (x ∷ xs) (y ∷ ys) = same_ci x y && same_all xs ys

abbrev pub same_tags : List String → List String → Bool
same_tags xs ys = same_all (sorted ci_le xs) (sorted ci_le ys)

unfoldable pub new_tags : Names → Kinds → List String → List String
new_tags names kinds cur =
    apply_tag (apply_tag cur names.backup kinds.backup) names.replication kinds.replication

-- the reason, once the tags are as they should be
unfoldable pub record_reason : String → String → Reason → World → World
record_reason host vmid rec w =
    if any_kind rec.kinds then save_reason host vmid rec w else drop_reason host vmid w

-- `is_vmid` is `isdigit` on the stripped text
unfoldable pub set_exception :
    Outside → Names → String → String → Bool → Reason → World → World × Result
set_exception o names host vmid is_vmid rec w =
    let new = new_tags names rec.kinds (tags_of vmid w) in
    if not is_vmid
    then (w, invalid_vmid)
    else if not o.exists
    then (w, not_found)
    else if not o.readable
    then (w, unreadable)
    else if same_tags new (tags_of vmid w)
    then (record_reason host vmid rec w, success new rec.kinds)
    else if not o.writable
    then (w, not_written)
    else (
      record_reason host vmid rec (record w { tags = put vmid new w.tags }),
      success new rec.kinds,
    )
