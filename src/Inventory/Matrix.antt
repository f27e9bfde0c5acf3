-- ===== src/Inventory/Matrix.antt =====
-- `build_matrix`, `filter_matrix` and `source_hosts` of app/replication_inventory.py, and
-- `guest_ref_from_dataset` of app/dr.py. The lineages come as the copies that `group_lineages`
-- lists; of a copy only the fields that the comparison uses are kept.
pub mod Listed
use Prim.Native.Char.{code}
use Prim.Native.String.{[] as empty, ◌∷◌ as ◌:::◌}
use pve_zfs_tool.Common.{
  ℕ, zero, suc, ◌+◌, ◌-◌, String, Bool, true, false, not, ◌&&◌, ◌||◌, Option, none, some, List, [],
  ◌∷◌, ◌++◌, map, filter, any, ltb, leb, nat_beq, ◌==◌, string_eq, pair_eq, if◌then◌else◌, contains,
  length,
}
use pve_zfs_tool.Common.Decimal.{int_from}
use pve_zfs_tool.Common.Dict.{Dict, get, put}
use pve_zfs_tool.Common.Scan.{is_digit, all_digits, skip, starts_with}
use pve_zfs_tool.Common.Sort.{sorted}
use pve_zfs_tool.Common.Text.{str_le}
use pve_zfs_tool.Common.Words.{is_empty, strip, is_space}
use pve_zfs_tool.Inventory.Compare.{Copy, Comparison, detect_source, compare_copy}

-- `\d+`: the digits from the start, and the text behind them
unfoldable pub digit_run : String → String × String
digit_run empty = (empty, empty)
digit_run (c ::: s) =
    let (digits, rest) = digit_run s in
    if is_digit (code c) then (c ::: digits, rest) else (empty, c ::: s)

abbrev is_disk : Option String → Bool
is_disk none = false
is_disk (some t) = not (is_empty (digit_run t).0)

abbrev number_of : String × String → Option String
number_of (digits, rest) =
    if not (is_empty digits) && is_disk (skip "-disk-" rest) then some digits else none

abbrev guest_behind : Option String → Option String
guest_behind none = none
guest_behind (some t) = number_of (digit_run t)

pub data GuestType : Type 0 where
  qemu lxc : GuestType

-- the kinds of volumes in the order of the pattern, from the start of a text
unfoldable pub guest_here : List (String × GuestType) → String → Option (GuestType × String)
guest_here [] s = none
guest_here ((kind, t) ∷ kinds) s =
    let others = guest_here kinds s in
    elim (guest_behind (skip kind s)) [ none ↦ others | some vmid ↦ some (t, vmid) ]

abbrev pub guest_kinds : List (String × GuestType)
guest_kinds = ("vm-", qemu) ∷ ("subvol-", lxc) ∷ ("base-", qemu) ∷ ("basevol-", lxc) ∷ []

-- the search behind each `/`
unfoldable pub search_guest : String → Option (GuestType × String)
search_guest empty = none
search_guest (c ::: s) =
    let later = search_guest s in
    if nat_beq (code c) b'/'
    then elim (guest_here guest_kinds s) [ none ↦ later | some r ↦ some r ]
    else later

unfoldable pub guest_ref_from_dataset : String → Option (GuestType × String)
guest_ref_from_dataset s = elim (guest_here guest_kinds s) [
  | none ↦ search_guest s
  | some r ↦ some r
]

-- a guest that a host lists
pub record Guest : Type 0 where
  pub vmid : String
  pub name : String
  pub guest_type : GuestType

pub record Row : Type 0 where
  pub host : String
  pub dataset : String
  pub is_source : Bool
  pub comparison : Comparison
  pub local_autosnap : Option Bool

pub record Entry : Type 0 where
  pub vmid : String
  pub guest_type : GuestType
  pub guest_name : String
  pub source_host : String
  pub source_dataset : String
  pub copy_count : ℕ
  pub copies : List Row
  pub config_mismatch : Bool  -- whether a message is there
  pub no_snapshots : Bool

-- a host on which zfs-auto-snapshot is active, with the datasets that opt out
abbrev pub Autosnap : Type 0
Autosnap = Dict String (Bool × List String)

-- the names by host and number, a later guest replacing an earlier one
abbrev pub name_all :
    String → List Guest → Dict (String × String) String → Dict (String × String) String
name_all host [] names = names
name_all host (g ∷ gs) names = name_all host gs (put (host, g.vmid) g.name names)

unfoldable pub guest_names :
    List (String × List Guest) → Dict (String × String) String → Dict (String × String) String
guest_names [] names = names
guest_names ((host, gs) ∷ hosts) names = guest_names hosts (name_all host gs names)

abbrev text_of : Option String → String
text_of none = ""
text_of (some s) = s

abbrev pub same_place : Copy → Copy → Bool
same_place a b = a.host == b.host && a.dataset == b.dataset

abbrev pub itself : Copy → Comparison
itself c = record {
  shared_snapshots = c.snapshot_count;
  missing_from_source = 0;
  excluded_labels = [];
  lag_seconds = some 0;
  in_sync = true;
}

abbrev autosnap_of : Option (Bool × List String) → String → Option Bool
autosnap_of none dataset = none
autosnap_of (some (active, disabled)) dataset =
    if active then some (not (contains dataset disabled)) else none

unfoldable pub row_of : Autosnap → Copy → Copy → Row
row_of autosnap source c = record {
  host = c.host;
  dataset = c.dataset;
  is_source = same_place c source;
  comparison = if same_place c source then itself c else compare_copy source c;
  local_autosnap =
      (if same_place c source then none else autosnap_of (get c.host autosnap) c.dataset);
}

-- `(not r["is_source"], r["host"])`
unfoldable pub row_le : Row → Row → Bool
row_le a b =
    if a.is_source
    then (if b.is_source then str_le a.host b.host else true)
    else if b.is_source
    then false
    else str_le a.host b.host

-- a configured pair: the host that is to pull, and the one it pulls from
abbrev pub Pair : Type 0
Pair = String × String

unfoldable pub is_mismatch : String → List Row → List Pair → Bool
is_mismatch src_host rows [] = false
is_mismatch src_host rows ((target, source) ∷ pairs) =
    let t = strip is_space target in
    let s = strip is_space source in
    let later = is_mismatch src_host rows pairs in
    if is_empty t || is_empty s
    then later
    else if src_host == t && any (λ r. r.host == s) rows
    then true
    else later

-- the entry of a lineage whose source is a guest's disk
unfoldable pub entry_of :
    Dict (String × String) String → List Pair → Autosnap → List Copy → Copy → Option Entry
entry_of names configured autosnap copies source =
    let rows = sorted row_le (map (row_of autosnap source) copies) in
    elim (guest_ref_from_dataset source.dataset) [
      | none ↦ none
      | some (t, vmid) ↦ some (record {
        vmid = vmid;
        guest_type = t;
        guest_name = text_of (get (source.host, vmid) names);
        source_host = source.host;
        source_dataset = source.dataset;
        copy_count = length rows - 1;
        copies = rows;
        config_mismatch = is_mismatch source.host rows configured;
        no_snapshots = false;
      })
    ]

abbrev lineage_entry :
    Option Copy → Dict (String × String) String → List Pair → Autosnap → List Copy → Option Entry
lineage_entry none names configured autosnap copies = none
lineage_entry (some source) names configured autosnap copies =
    entry_of names configured autosnap copies source

abbrev pub push : Option Entry → List Entry → List Entry
push none es = es
push (some e) es = e ∷ es

unfoldable pub lineage_entries :
    Dict (String × String) String → List Pair → Autosnap → List (List Copy) → List Entry
lineage_entries names configured autosnap [] = []
lineage_entries names configured autosnap (copies ∷ lineages) =
    push (lineage_entry (detect_source copies) names configured autosnap copies)
      (lineage_entries names configured autosnap lineages)

abbrev pub is_of : String → String → Entry → Bool
is_of host vmid e = e.source_host == host && e.vmid == vmid

-- the entry of a guest without a snapshot
abbrev pub bare_entry : String → Guest → Entry
bare_entry host g = record {
  vmid = g.vmid;
  guest_type = g.guest_type;
  guest_name = g.name;
  source_host = host;
  source_dataset = "";
  copy_count = 0;
  copies = [];
  config_mismatch = false;
  no_snapshots = true;
}

unfoldable pub unseen : List Entry → String → List Guest → List Entry
unseen seen host [] = []
unseen seen host (g ∷ gs) =
    let rest = unseen seen host gs in
    if is_empty g.vmid || any (is_of host g.vmid) seen then rest else bare_entry host g ∷ rest

unfoldable pub all_unseen : List Entry → List (String × List Guest) → List Entry
all_unseen seen [] = []
all_unseen seen ((host, gs) ∷ hosts) = unseen seen host gs ++ all_unseen seen hosts

abbrev number : String → ℕ
number s = if not (is_empty s) && all_digits s then int_from 0 s else 0

-- `(source_host, int(vmid), source_dataset)`
unfoldable pub entry_le : Entry → Entry → Bool
entry_le a b =
    if a.source_host == b.source_host
    then (if nat_beq (number a.vmid) (number b.vmid)
        then str_le a.source_dataset b.source_dataset
        else ltb (number a.vmid) (number b.vmid))
    else str_le a.source_host b.source_host

unfoldable pub build_matrix :
    List (List Copy) → List (String × List Guest) → List Pair → Autosnap → List Entry
build_matrix lineages guests_by_host configured autosnap =
    let entries = lineage_entries (guest_names guests_by_host []) configured autosnap lineages in
    sorted entry_le (entries ++ all_unseen entries guests_by_host)

-- the narrowed matrix; `without_copy_guests` repeats fields of those without a copy
pub record Filtered : Type 0 where
  pub guests : List Entry
  pub replicated_count : ℕ
  pub without_copy_count : ℕ
  pub without_copy : List Entry
  pub source_host : String

abbrev pub is_replicated : Entry → Bool
is_replicated e = ltb 0 e.copy_count

-- no host is the empty text
unfoldable pub filter_matrix : List Entry → String → Filtered
filter_matrix matrix host =
    let chosen = if is_empty host then matrix else filter (λ g. g.source_host == host) matrix in
    let replicated = filter is_replicated chosen in
    let without = filter (λ g. nat_beq g.copy_count 0) chosen in
    record {
      guests = replicated ++ without;
      replicated_count = length replicated;
      without_copy_count = length without;
      without_copy = without;
      source_host = host;
    }
