-- ===== src/SnapTags.antt =====
-- app/snaptags.py: the tags in the names of snapshots, and the tags chosen for a host. The file
-- snapcheck_tags.json is a map, and the compiled regular expression is the list of its choices.
pub mod Laws
use Prim.Native.Char.{code}
use Prim.Native.String.{[] as empty, ◌∷◌ as ◌:::◌}
use pve_zfs_tool.Common.{
  ℕ, zero, suc, ◌+◌, String, Bool, true, false, not, ◌&&◌, ◌||◌, Option, none, some, List, [], ◌∷◌,
  ◌++◌, map, filter, any, leb, ltb, nat_beq, ◌==◌, string_eq, if◌then◌else◌, contains,
}
use pve_zfs_tool.Common.Dict.{Dict, keys, get, put, remove}
use pve_zfs_tool.Common.Scan.{is_digit, has_char, at_end, skip, read_digits}
use pve_zfs_tool.Common.Sort.{sorted}
use pve_zfs_tool.Common.Text.{str_le}
use pve_zfs_tool.Common.Words.{is_empty, len, rstrip}
use pve_zfs_tool.Validators.{is_alnum}

abbrev pub default_tags : List String
default_tags =
    "frequent" ∷ "hourly" ∷ "daily" ∷ "weekly" ∷ "monthly" ∷ "yearly" ∷ "backup-zfs"
    ∷ "bashclub-zfs" ∷ []

-- `[A-Za-z0-9._-]{0,n}$`
unfoldable pub tag_rest : ℕ → String → Bool
tag_rest zero s = at_end s
tag_rest (suc n) empty = true
tag_rest (suc n) (c ::: s) =
    let rest = tag_rest n s in
    ((is_alnum (code c) || has_char (code c) "._-") && rest) || at_end (c ::: s)

-- `TAG_RE`
unfoldable pub is_valid_tag : String → Bool
is_valid_tag empty = false
is_valid_tag (c ::: s) = is_alnum (code c) && tag_rest 63 s

-- `[A-Za-z0-9]+` from the start, empty for no match
unfoldable pub alnum_run : String → String
alnum_run empty = ""
alnum_run (c ::: s) = let rest = alnum_run s in if is_alnum (code c) then c ::: rest else ""

abbrev run_behind : Option String → String
run_behind none = ""
run_behind (some s) = alnum_run s

-- `_AUTOSNAP_RE.search`: the label at the first place that has one, empty for no match
unfoldable pub autosnap_label : String → String
autosnap_label empty = ""
autosnap_label (c ::: s) =
    let later = autosnap_label s in
    let here = run_behind (skip "zfs-auto-snap_" (c ::: s)) in if is_empty here then later else here

-- `tag in snap_name`
unfoldable pub has_text : String → String → Bool
has_text p empty = is_empty p
has_text p (c ::: s) = elim (skip p (c ::: s)) [ some t ↦ true | none ↦ has_text p s ]

-- `[-_.]?\d{4}` from the start
unfoldable pub stamp_here : String → Bool
stamp_here empty = false
stamp_here (c ::: s) =
    (elim (read_digits 4 0 (c ::: s)) [ some r ↦ true | none ↦ false ])
    || (has_char (code c) "-_." && (elim (read_digits 4 0 s) [ some r ↦ true | none ↦ false ]))

-- `_PREFIX_RE`: the shortest text before a stamp, without a line break
unfoldable pub before_stamp : String → Option String
before_stamp empty = none
before_stamp (c ::: s) =
    let rest = before_stamp s in
    if stamp_here (c ::: s)
    then some ""
    else if nat_beq (code c) 10
    then none
    else elim rest [ none ↦ none | some p ↦ some (c ::: p) ]

-- the first of the tags that stands in the name
unfoldable pub known_tag : List String → String → Option String
known_tag [] name = none
known_tag (t ∷ ts) name = if has_text t name then some t else known_tag ts name

abbrev pub prefix_tag : Option String → Option String
prefix_tag none = none
prefix_tag (some p) =
    let prefix = rstrip (λ c. has_char c "-_.") p in
    if is_valid_tag prefix then some prefix else none

unfoldable pub extract_tag : String → Option String
extract_tag name =
    if not (is_empty (autosnap_label name))
    then some (autosnap_label name)
    else elim (known_tag default_tags name) [
      | some t ↦ some t
      | none ↦ prefix_tag (before_stamp name)
    ]

abbrev pub count_of : Option ℕ → ℕ
count_of none = 0
count_of (some n) = n

-- `counts[tag] = counts.get(tag, 0) + 1`
abbrev pub count_tag : Option String → Dict String ℕ → Dict String ℕ
count_tag none counts = counts
count_tag (some tag) counts =
    if is_empty tag then counts else put tag (count_of (get tag counts) + 1) counts

unfoldable pub count_tags : List String → Dict String ℕ → Dict String ℕ
count_tags [] counts = counts
count_tags (name ∷ names) counts = count_tags names (count_tag (extract_tag name) counts)

unfoldable pub discover_tags : List String → Dict String ℕ
discover_tags names = count_tags names []

-- `{t for t in ...}`, each text once
unfoldable pub distinct : List String → List String
distinct [] = []
distinct (t ∷ ts) = let rest = distinct ts in if contains t ts then rest else t ∷ rest

-- the choices of the regular expression, longest first; none for no selection; the order of tags
-- of one length, which Python leaves open, is that of the list
unfoldable pub label_choices : Option (List String) → List String
label_choices none =
    sorted (λ a b. leb (len b) (len a)) (distinct (filter is_valid_tag default_tags))
label_choices (some tags) =
    sorted (λ a b. leb (len b) (len a)) (distinct (filter is_valid_tag tags))

abbrev pub Selections : Type 0
Selections = Dict String (List String)

unfoldable pub load_tag_selection : String → Selections → Option (List String)
load_tag_selection address sels = elim (get address sels) [
  | none ↦ none
  | some sel ↦ some (filter is_valid_tag sel)
]

abbrev pub valid_tags : List String → List String
valid_tags tags = sorted str_le (distinct (filter is_valid_tag tags))

unfoldable pub save_tag_selection :
    String → List String → Bool → Selections → Selections × Option (List String)
save_tag_selection address tags reset sels =
    if reset
    then (remove address sels, none)
    else (put address (valid_tags tags) sels, some (valid_tags tags))

unfoldable pub effective_tags : String → Selections → List String
effective_tags address sels = elim (load_tag_selection address sels) [
  | none ↦ default_tags
  | some sel ↦ sel
]

pub record Choice : Type 0 where
  pub tag : String
  pub count : ℕ
  pub selected : Bool

abbrev pub selection_or : List String → Option (List String) → List String
selection_or ts none = ts
selection_or ts (some sel) = sel

unfoldable pub visible_tags : Dict String ℕ → Option (List String) → List Choice
visible_tags counts selection =
    let shown = sorted str_le (distinct (keys counts ++ selection_or [] selection)) in
    map
      (λ t. record {
        tag = t;
        count = count_of (get t counts);
        selected = contains t (selection_or default_tags selection);
      })
      shown
