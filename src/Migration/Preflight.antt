-- ===== src/Migration/Preflight.antt =====
-- `preflight` of app/migrate.py and the plan of the disks. What the hosts answer is a record; the
-- messages of the checks and the fields that only repeat an answer are left out.
pub mod Ready
use Prim.Native.String.{◌++◌ as ◌<>◌}
use pve_zfs_tool.Common.{
  suc, length, ℕ, String, Bool, true, false, not, ◌&&◌, ◌||◌, Option, none, some, ◌⊎◌, inl, inr,
  List, [], ◌∷◌, ◌++◌, map, filter, any, all, leb, ◌==◌, string_eq, if◌then◌else◌, contains,
}
use pve_zfs_tool.Common.Scan.{is_digit, has_char, skip}
use pve_zfs_tool.Common.Words.{is_empty, split_on, behind_first}
use pve_zfs_tool.Validators.{is_alnum, is_lower, matches, validate_vmid}
use pve_zfs_tool.Migration.Storage.{Storage, check_storage_match, last_of, suggest_storage_id}

pub data Level : Type 0 where
  fine warn error : Level

pub record Check : Type 0 where
  pub id : String
  pub ok : Bool
  pub level : Level

-- a disk of the plan; no common snapshot is the empty text
pub record Row : Type 0 where
  pub source_dataset : String
  pub target_dataset : String
  pub target_exists : Bool
  pub common_snapshot : String

-- what the two hosts answer
pub record Found : Type 0 where
  pub config_readable : Bool
  pub unresolved : Bool
  pub disks : List String
  pub running : Bool
  pub in_use : String → Bool
  pub exists : String → Bool
  pub source_snapshots : String → List String
  pub target_snapshots : String → List String
  pub pve_snapshots : Bool
  pub storages : List Storage
  pub source_bridges : List String
  pub target_bridges : List String
  pub target_reaches_source : Bool
  pub source_reaches_target : Bool

pub record Report : Type 0 where
  pub checks : List Check
  pub plan : List Row
  pub target_vmid : String
  pub suggestions : List String
  pub id_suggestion : Option String
  pub pull : Bool
  pub push : Bool
  pub can_precopy : Bool
  pub can_cutover : Bool

-- `ValueError`, an unreadable configuration with its check, and the report
pub data Preflight : Type 0 where
  invalid : Preflight
  unreadable : List Check → Preflight
  report : Report → Preflight

-- `add`
abbrev pub add : String → Bool → Level → Check
add id ok level = record { id = id; ok = ok; level = if ok then fine else level }

-- `_DS_RE`
unfoldable pub is_dataset : String → Bool
is_dataset =
    matches (λ c. (leb b'A' c && leb c b'Z') || is_lower c) λ c. is_alnum c || has_char c "_.:/-"

-- the prefix of a volume with the number of the guest, replaced
unfoldable pub rename : List String → (vmid new_vmid base : String) → String
rename [] vmid new_vmid base = base
rename (kind ∷ kinds) vmid new_vmid base =
    let rest = rename kinds vmid new_vmid base in
    elim (skip (kind <> "-" <> vmid <> "-") base) [
      | none ↦ rest
      | some t ↦ kind <> "-" <> new_vmid <> "-" <> t
    ]

-- `s.rsplit("/", 1)[-1]`
abbrev pub behind_slash : String → String
behind_slash s = let (part, parts) = split_on b'/' s in last_of part parts

unfoldable pub volume_basename : String → String
volume_basename s = behind_slash (elim (behind_first b':' s) [ none ↦ s | some t ↦ t ])

-- the dataset on the target; `new_vmid` is the text that was given, empty for none
unfoldable pub target_dataset : (target_root vmid new_vmid dataset : String) → String
target_dataset target_root vmid new_vmid dataset =
    let base = volume_basename dataset in
    target_root
    <> "/"
    <> (if not (is_empty new_vmid) && not (new_vmid == vmid)
        then rename ("vm" ∷ "subvol" ∷ "base" ∷ "basevol" ∷ []) vmid new_vmid base
        else base)

-- `for s in reversed(...): if s in src_snaps: common = s; break`
unfoldable pub last_common : List String → List String → String
last_common source [] = ""
last_common source (s ∷ target) =
    let later = last_common source target in
    if any (λ t. contains t source) target then later else if contains s source then s else ""

unfoldable pub plan_row : Found → (target_root vmid new_vmid dataset : String) → Row
plan_row o target_root vmid new_vmid dataset =
    let target = target_dataset target_root vmid new_vmid dataset in
    record {
      source_dataset = dataset;
      target_dataset = target;
      target_exists = o.exists target;
      common_snapshot =
          (if o.exists target
            then last_common (o.source_snapshots dataset) (o.target_snapshots target)
            else "");
    }

abbrev pub has_common : Row → Bool
has_common p = not (is_empty p.common_snapshot)

-- a forced receive would destroy the dataset
abbrev pub is_blocked : Row → Bool
is_blocked p = p.target_exists && not (has_common p)

abbrev pub is_none : List String → Bool
is_none [] = true
is_none (x ∷ xs) = false

unfoldable pub disk_check : Found → Check
disk_check o =
    if o.unresolved
    then add "disks" false error
    else if is_none o.disks
    then add "disks" false error
    else add "disks" true error

unfoldable pub bridge_checks : Found → List Check
bridge_checks o =
    if any (λ b. not (contains b o.target_bridges)) o.source_bridges
    then add "bridges" false warn ∷ []
    else if is_none o.source_bridges
    then []
    else add "bridges" true error ∷ []

unfoldable pub plan_checks : List Row → List Check
plan_checks plan =
    if any is_blocked plan
    then add "target_datasets" false error ∷ []
    else if any has_common plan
    then add "target_datasets" true error ∷ []
    else elim plan [ [] ↦ [] | p ∷ ps ↦ add "target_datasets" true error ∷ [] ]

abbrev pub is_error : Check → Bool
is_error c = not c.ok && elim c.level [ error ↦ true | _ ↦ false ]

-- every check from the configuration on
unfoldable pub all_checks :
    Found → (target_vmid target_root target_storage : String) → List Row → List Check
all_checks o target_vmid target_root target_storage plan =
    add "config" true error
      ∷ disk_check o
      ∷ add "running" true warn
      ∷ add "vmid" (not (o.in_use target_vmid)) error
      ∷ add "target_root" (o.exists target_root) error
      ∷ (if o.pve_snapshots then add "pve_snapshots" false warn ∷ [] else [])
    ++ add "storage" (check_storage_match o.storages target_storage target_root).0 error
      ∷ bridge_checks o
    ++ add "ssh" (o.target_reaches_source || o.source_reaches_target) error ∷ plan_checks plan

-- the number that the guest gets: the given one, checked, or its own
unfoldable pub wanted_vmid : (vmid new_vmid : String) → Option String
wanted_vmid vmid new_vmid =
    if is_empty new_vmid
    then some vmid
    else elim (validate_vmid (some new_vmid)) [ inl e ↦ none | inr v ↦ some v ]

abbrev pub report_of :
    Found → (vmid new_vmid target_vmid target_root target_storage : String) → Report
report_of o vmid new_vmid target_vmid target_root target_storage =
    let plan = map (plan_row o target_root vmid new_vmid) o.disks in
    let checks = all_checks o target_vmid target_root target_storage plan in
    record {
      checks = checks;
      plan = plan;
      target_vmid = target_vmid;
      suggestions = (check_storage_match o.storages target_storage target_root).1;
      id_suggestion =
          suggest_storage_id (suc (length o.storages)) target_root
            (map (λ s. s.storage) o.storages);
      pull = o.target_reaches_source;
      push = not o.target_reaches_source && o.source_reaches_target;
      can_precopy = not (any is_error checks);
      can_cutover = not (any is_error checks);
    }

-- with the checked numbers
abbrev pub preflight_for :
    Option String → Found → (vmid new_vmid target_root target_storage : String) → Preflight
preflight_for none o vmid new_vmid target_root target_storage = invalid
preflight_for (some target_vmid) o vmid new_vmid target_root target_storage =
    if not (is_dataset target_root)
    then invalid
    else if not o.config_readable
    then unreadable (add "config" false error ∷ [])
    else report (report_of o vmid new_vmid target_vmid target_root target_storage)

unfoldable pub preflight :
    Found → (vmid : Option String) (new_vmid target_root target_storage : String) → Preflight
preflight o vmid new_vmid target_root target_storage = elim (validate_vmid vmid) [
  | inl e ↦ invalid
  | inr v ↦ preflight_for (wanted_vmid v new_vmid) o v new_vmid target_root target_storage
]
