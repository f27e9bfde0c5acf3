-- ===== src/Autosnap.antt =====
-- app/autosnap.py: the retention levels in the cron files of zfs-auto-snapshot. A file is the list
-- of its lines, which newlines alone break: of the characters at which `splitlines` breaks a text,
-- none but the newline is in it.
pub mod Enabled
use Prim.Native.Char.{code}
use Prim.Native.Nat.{suc}
use Prim.Native.String.{[] as empty, ◌∷◌ as ◌::◌, ◌++◌ as ◌<>◌}
use pve_zfs_tool.Common.{
  ℕ, zero, String, Bool, true, false, Option, none, some, List, [], ◌∷◌, ◌++◌, any, nat_beq, leb,
  not, if◌then◌else◌, ◌&&◌, ◌||◌, ◌==◌, string_eq,
}
use pve_zfs_tool.Common.Decimal.{str, int_from}
use pve_zfs_tool.Common.Dict.{Dict, get}
use pve_zfs_tool.Common.Scan.{skip, is_digit, starts_with}
use pve_zfs_tool.Common.Words.{is_space, is_empty, strip, lstrip, len}

-- the characters of a class at the start
unfoldable pub run_of : (ℕ → Bool) → String → String
run_of p empty = ""
run_of p (c :: s) = let rest = run_of p s in if p (code c) then c :: rest else ""

-- `p in s`
unfoldable pub has_part : String → String → Bool
has_part p empty = is_empty p
has_part p (c :: s) = starts_with p (c :: s) || has_part p s

unfoldable pub join : String → String → String
join empty t = t
join (c :: s) t = c :: join s t

abbrev pub is_hash : ℕ → Bool
is_hash c = nat_beq c b'#'

unfoldable pub is_command_line : String → String → Bool
is_command_line line label =
    let body = strip is_space (lstrip is_hash (lstrip is_space line)) in
    has_part "zfs-auto-snapshot" body && has_part ("--label=" <> label) body

abbrev pub starts_hash : String → Bool
starts_hash empty = false
starts_hash (c :: s) = is_hash (code c)

unfoldable pub line_is_commented : String → Bool
line_is_commented line = starts_hash (lstrip is_space line)

-- the class `[=\s]`
abbrev pub is_gap : ℕ → Bool
is_gap c = nat_beq c b'=' || is_space c

-- digits behind `[=\s]+`: the number, and the text behind it
unfoldable pub number_behind : String → Option (ℕ × String)
number_behind s =
    let digits = lstrip is_gap s in
    let number = run_of is_digit digits in
    if is_empty (run_of is_gap s) || is_empty number
    then none
    else some (int_from 0 number, lstrip is_digit digits)

-- `_KEEP_RE` at the start of a text
unfoldable pub keep_here : String → Option (ℕ × String)
keep_here s = elim (skip "--keep" s) [ none ↦ none | some rest ↦ number_behind rest ]

-- the first match in a text
unfoldable pub keep_in : String → Option ℕ
keep_in empty = none
keep_in (c :: s) =
    let rest = keep_in s in elim (keep_here (c :: s)) [ none ↦ rest | some (n, t) ↦ some n ]

-- `_KEEP_RE.sub`; a text has at most as many matches as characters
unfoldable pub sub_from : (fuel n : ℕ) → String → String
sub_from zero n s = s
sub_from (suc fuel) n empty = ""
sub_from (suc fuel) n (c :: s) =
    let on = sub_from fuel n s in
    elim (keep_here (c :: s)) [
      | none ↦ c :: on
      | some (m, t) ↦ join "--keep=" (join (str n) (sub_from fuel n t))
    ]

unfoldable pub set_keep : ℕ → String → String
set_keep n line = sub_from (len line) n line

pub record Level : Type 0 where
  pub keep : Option ℕ
  pub enabled : Bool

abbrev pub level_of : String → Level
level_of line = record { keep = keep_in line; enabled = not (line_is_commented line) }

-- `candidate or entry`
abbrev pub or_line : Option Level → String → Option Level
or_line none line = some (level_of line)
or_line (some l) line = some l

-- the first active line of the level, or the candidate: the first commented one
unfoldable pub parse_from : Option Level → List String → String → Option Level
parse_from candidate [] label = candidate
parse_from candidate (line ∷ lines) label =
    let later = or_line candidate line in
    let skipped = parse_from candidate lines label in
    let searched = parse_from later lines label in
    if not (is_command_line line label)
    then skipped
    else if line_is_commented line
    then searched
    else some (level_of line)

unfoldable pub parse_level : List String → String → Option Level
parse_level content label = parse_from none content label

-- the blanks at the start of a line
abbrev pub indent_of : String → String
indent_of line = run_of is_space line

-- without the first `#` and one blank behind it
abbrev pub uncomment : String → String
uncomment empty = ""
uncomment (c :: empty) = ""
uncomment (c :: d :: s) = if nat_beq (code d) b' ' then s else d :: s

unfoldable pub set_line_enabled : String → Bool → String
set_line_enabled line enabled =
    let stripped = lstrip is_space line in
    let commented = starts_hash stripped in
    if enabled && commented
    then join (indent_of line) (uncomment stripped)
    else if not enabled && not commented
    then join (indent_of line) ("#" :: " " :: stripped)
    else line

-- `if keep is not None and _KEEP_RE.search(new)`
abbrev pub with_keep : Option ℕ → String → String
with_keep none line = line
with_keep (some n) line = elim (keep_in line) [ none ↦ line | some _ ↦ set_keep n line ]

abbrev pub with_enabled : Option Bool → String → String
with_enabled none line = line
with_enabled (some e) line = set_line_enabled line e

unfoldable pub update_level_content : List String → String → Option ℕ → Option Bool → List String
update_level_content [] label keep enabled = []
update_level_content (line ∷ lines) label keep enabled =
    let rest = update_level_content lines label keep enabled in
    if is_command_line line label
    then with_enabled enabled (with_keep keep line) ∷ rest
    else line ∷ rest

abbrev pub levels : List String
levels = "frequent" ∷ "hourly" ∷ "daily" ∷ "weekly" ∷ "monthly" ∷ []

pub record Entry : Type 0 where
  pub label : String
  pub level : Option Level

abbrev pub level_in : Option (List String) → String → Option Level
level_in none label = none
level_in (some text) label = parse_level text label

unfoldable pub retention_from : List String → Dict String (List String) → List Entry
retention_from [] files = []
retention_from (label ∷ labels) files =
    record { label = label; level = level_in (get label files) label } ∷ retention_from labels files

-- one entry for each level, without a level where it is not installed
unfoldable pub parse_retention : Dict String (List String) → List Entry
parse_retention files = retention_from levels files
