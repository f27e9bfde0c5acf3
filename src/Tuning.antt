-- ===== src/Tuning.antt =====
-- app/tuning.py: the suggestions for the size of the ARC, the parameters of zfs.conf and the flow of
-- `set_arc_limit`. The commands' ends are arguments: a probe that fails reads as an empty zfs.conf.
pub mod Laws
use pve_zfs_tool.Common.{
  ℕ, ◌+◌, ◌*◌, ◌/◌, ◌≤◌, max, min, String, Bool, true, false, not, ◌&&◌, ◌||◌, Option, none, some,
  List, [], ◌∷◌, ◌++◌, leb, ltb, nat_beq, string_eq, if◌then◌else◌, map,
}
use pve_zfs_tool.Common.Dict.{Dict, get, put, remove}
use pve_zfs_tool.Common.Decimal.{str, int_from}
use pve_zfs_tool.Common.Scan.{skip, all_digits}
use pve_zfs_tool.Common.Words.{is_empty, is_space, strip}
use pve_zfs_tool.Common.Breaks.{split_lines, concat}
use pve_zfs_tool.Replication.Cron.{split_words, cut}

abbrev pub arc_min_bytes : ℕ
arc_min_bytes = 64 * 1024 * 1024

-- a truthy number
abbrev pub truthy : Option ℕ → Bool
truthy none = false
truthy (some n) = ltb 0 n

unfoldable pub suggest_arc_floor : Option ℕ → Option ℕ
suggest_arc_floor none = none
suggest_arc_floor (some pool) =
    if leb pool 0 then none else some (max (2 * 1024 * 1024 * 1024 + pool / 1024) arc_min_bytes)

pub record Suggestions : Type 0 where
  pub lowest : Option ℕ  -- `min`
  pub balanced : Option ℕ
  pub highest : Option ℕ  -- `max`

-- the share of the memory, if its size is known
unfoldable pub share : Option ℕ → ℕ → Option ℕ
share none part = none
share (some ram) part = if ltb 0 ram then some (max arc_min_bytes (ram / part)) else none

-- the floor, at most the memory
unfoldable pub clamp_floor : (floor ram : Option ℕ) → Option ℕ
clamp_floor none ram = none
clamp_floor (some f) none = some f
clamp_floor (some f) (some ram) = some (if ltb 0 ram then min f ram else f)

-- `if a and b and a > b: a = b`
unfoldable pub at_most : (a b : Option ℕ) → Option ℕ
at_most none b = none
at_most (some a) none = some a
at_most (some a) (some b) = if ltb 0 a && ltb 0 b && ltb b a then some b else some a

-- `if a and b and a < b: a = b`
unfoldable pub at_least : (a b : Option ℕ) → Option ℕ
at_least none b = none
at_least (some a) none = some a
at_least (some a) (some b) = if ltb 0 a && ltb 0 b && ltb a b then some b else some a

unfoldable pub arc_suggestions : (pool_sum total_ram : Option ℕ) → Suggestions
arc_suggestions pool_sum total_ram =
    let highest = share total_ram 2 in
    let lowest = at_most (clamp_floor (suggest_arc_floor pool_sum) total_ram) highest in
    record {
      lowest = lowest;
      balanced = at_most (at_least (share total_ram 4) lowest) highest;
      highest = highest;
    }

-- the parameters of the `options zfs` lines of a zfs.conf, and its other lines
pub record Conf : Type 0 where
  pub params : Dict String String
  pub others : List String

-- the tokens of one line; those without a `=` are left out
unfoldable pub put_all : List String → Dict String String → Dict String String
put_all [] d = d
put_all (tok ∷ toks) d = elim (cut b'=' tok) [
  | none ↦ put_all toks d
  | some (k, v) ↦ put_all toks (put k v d)
]

unfoldable pub collect_from : List String → Conf → Conf
collect_from [] c = c
collect_from (line ∷ lines) c = elim (skip "options zfs" (strip is_space line)) [
  | some toks ↦ collect_from lines (record c { params = put_all (split_words toks) c.params })
  | none ↦ collect_from lines (record c { others = c.others ++ line ∷ [] })
]

unfoldable pub collect_zfs_params : String → Conf
collect_zfs_params text = collect_from (split_lines text) (record { params = []; others = [] })

-- `int(v) if v.isdigit() else None` of a parameter, on ASCII digits
abbrev pub int_param : Option String → Option ℕ
int_param none = none
int_param (some v) = if not (is_empty v) && all_digits v then some (int_from 0 v) else none

-- the two limits that a configuration sets
unfoldable pub parse_arc_conf : String → Option ℕ × Option ℕ
parse_arc_conf text =
    let params = (collect_zfs_params text).params in
    (int_param (get "zfs_arc_max" params), int_param (get "zfs_arc_min" params))

-- `if arc and int(arc) > 0: params[key] = str(int(arc))`
abbrev pub set_param : String → Option ℕ → Dict String String → Dict String String
set_param key none d = d
set_param key (some n) d = if ltb 0 n then put key (str n) d else d

-- `sep.join(...)`
unfoldable pub joined : String → List String → String
joined sep [] = ""
joined sep (s ∷ []) = s
joined sep (s ∷ t ∷ ts) = concat s (concat sep (joined sep (t ∷ ts)))

abbrev pub assigned : String × String → String
assigned (k, v) = concat k (concat "=" v)

-- the lines that are written back, before the strip
unfoldable pub conf_body : List String → Dict String String → String
conf_body others [] = joined "\n" others
conf_body others (kv ∷ kvs) =
    let opts = joined " " (map assigned (kv ∷ kvs)) in
    joined "\n" (others ++ concat "options zfs " opts ∷ [])

unfoldable pub build_arc_conf : String → (arc_max arc_min : Option ℕ) → String
build_arc_conf text arc_max arc_min =
    let c = collect_zfs_params text in
    let cleared = remove "zfs_arc_min" (remove "zfs_arc_max" c.params) in
    let params = set_param "zfs_arc_min" arc_min (set_param "zfs_arc_max" arc_max cleared) in
    let body = strip is_space (conf_body c.others params) in
    if is_empty body then "" else concat body "\n"

-- `conf` is the text of the file, empty where there is none
pub record Host : Type 0 where
  pub conf : String
  pub runtime_max : Option ℕ
  pub runtime_min : Option ℕ

-- whether the probe answers, the size of the memory, and whether the three commands succeed
pub record Outside : Type 0 where
  pub probed : Bool
  pub memory : Option ℕ
  pub writes : Bool
  pub initramfs : Bool
  pub applies : Bool

-- `conf_text` and `total_ram_bytes` of the probe, nothing where it fails
abbrev pub conf_text : Outside → Host → String
conf_text o h = if o.probed then joined "\n" (split_lines h.conf) else ""

abbrev pub total_ram_bytes : Outside → Option ℕ
total_ram_bytes o = if o.probed then o.memory else none

pub data Report : Type 0 where
  too_small min_not_below exceeds_ram not_written : Report
  applied : (initramfs runtime : Bool) → Report

-- the checks before the probe
unfoldable pub refused : ℕ → Option ℕ → Option Report
refused arc_max arc_min =
    if ltb 0 arc_max && ltb arc_max arc_min_bytes then some too_small else elim arc_min [
      | none ↦ none
      | some m ↦ if ltb 0 arc_max && leb arc_max m then some min_not_below else none
    ]

-- the last command, for a limit that is set
unfoldable pub apply_runtime : Outside → ℕ → Option ℕ → Host → Host × Bool
apply_runtime o arc_max arc_min h =
    if not (leb arc_min_bytes arc_max)
    then (h, false)
    else if o.applies
    then (
      record h {
        runtime_max = some arc_max;
        runtime_min = (if truthy arc_min then arc_min else h.runtime_min);
      },
      true,
    )
    else (h, false)

abbrev pub above : Option ℕ → ℕ → Bool
above none n = false
above (some ram) n = ltb 0 ram && ltb ram n

abbrev pub none_for_zero : ℕ → Option ℕ
none_for_zero n = if ltb 0 n then some n else none

unfoldable pub set_arc_limit : Outside → ℕ → Option ℕ → Host → Host × Report
set_arc_limit o arc_max arc_min h =
    let new_text = build_arc_conf (conf_text o h) (none_for_zero arc_max) arc_min in
    let written = record h { conf = new_text } in
    let (h', runtime) = apply_runtime o arc_max arc_min written in
    elim (refused arc_max arc_min) [
      | some r ↦ (h, r)
      | none ↦
          if above (total_ram_bytes o) arc_max
          then (h, exceeds_ram)
          else if not o.writes
          then (h, not_written)
          else (h', applied o.initramfs runtime)
    ]
