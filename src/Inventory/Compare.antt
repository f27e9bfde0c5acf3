-- ===== src/Inventory/Compare.antt =====
-- `detect_source` and `compare_copy` of app/replication_inventory.py. A Python set is a list
-- without duplicates.
pub mod Laws
use pve_zfs_tool.Common.{
  ℕ, ◌-◌, String, Bool, true, false, not, ◌&&◌, ◌||◌, Option, none, some, List, [], ◌∷◌, ltb, leb,
  nat_beq, ◌==◌, string_eq, if◌then◌else◌, length, filter, contains,
}
use pve_zfs_tool.Common.Dict.{Dict, get}
use pve_zfs_tool.Common.Sort.{sorted}
use pve_zfs_tool.Common.Text.{str_le}

-- one dataset of a lineage; a label is none where the snapshot's name has no tag
pub record Copy : Type 0 where
  pub host : String
  pub dataset : String
  pub snapshot_count : ℕ
  pub newest : Option ℕ
  pub guids : List String
  pub by_guid : Dict String (Option String)
  pub labels : List String

-- the order of the tuples `(newest, snapshot_count, host)`, of a candidate
unfoldable pub key_le : ℕ × ℕ × String → ℕ × ℕ × String → Bool
key_le (a, b, s) (c, d, t) =
    if nat_beq a c then (if nat_beq b d then str_le s t else ltb b d) else ltb a c

abbrev pub time_of : Option ℕ → ℕ
time_of none = 0
time_of (some t) = t

abbrev pub key : Copy → ℕ × ℕ × String
key c = (time_of c.newest, c.snapshot_count, c.host)

abbrev pub is_candidate : Copy → Bool
is_candidate c = elim c.newest [ none ↦ false | some _ ↦ true ]

-- `max(..., key=...)`: the first one that no later one exceeds
unfoldable pub max_by_key : Copy → List Copy → Copy
max_by_key best [] = best
max_by_key best (c ∷ cs) = max_by_key (if key_le (key c) (key best) then best else c) cs

unfoldable pub detect_source : List Copy → Option Copy
detect_source copies = elim (filter is_candidate copies) [
  | [] ↦ none
  | c ∷ cs ↦ some (max_by_key c cs)
]

pub record Comparison : Type 0 where
  pub shared_snapshots : ℕ
  pub missing_from_source : ℕ
  pub excluded_labels : List String
  pub lag_seconds : Option ℕ
  pub in_sync : Bool

abbrev pub label_of : Copy → String → Option String
label_of c g = elim (get g c.by_guid) [ none ↦ none | some l ↦ l ]

abbrev pub is_in : Option String → List String → Bool
is_in none ls = false
is_in (some l) ls = contains l ls

abbrev pub is_nil {ℓ} : {A : Type ℓ} → List A → Bool
is_nil [] = true
is_nil (_ ∷ _) = false

abbrev pub shared : Copy → Copy → List String
shared source copy = filter (λ g. contains g copy.guids) source.guids

-- the snapshots that the copy lacks, of the labels that it carries
unfoldable pub missing : Copy → Copy → List String
missing source copy =
    let absent = filter (λ g. not (contains g copy.guids)) source.guids in
    if is_nil copy.labels
    then absent
    else filter (λ g. is_in (label_of source g) copy.labels) absent

abbrev pub lag : Option ℕ → Option ℕ → Option ℕ
lag (some s) (some c) = some (s - c)
lag _ _ = none

unfoldable pub compare_copy : Copy → Copy → Comparison
compare_copy source copy = record {
  shared_snapshots = length (shared source copy);
  missing_from_source = length (missing source copy);
  excluded_labels =
      sorted str_le
        (filter (λ l. not (l == "")) (filter (λ l. not (contains l copy.labels)) source.labels));
  lag_seconds = lag source.newest copy.newest;
  in_sync = not (is_nil (shared source copy)) && is_nil (missing source copy);
}
