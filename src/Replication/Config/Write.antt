-- ===== src/Replication/Config/Write.antt =====
-- `write_config` of app/replication.py. What the host answers is a parameter: whether the source is
-- the host itself, the tagged datasets, and the text of the file that is there, none where it
-- cannot be read.
pub mod Guard
use Prim.Native.Char.{code}
use Prim.Native.String.{[] as empty, ◌∷◌ as ◌::◌, ◌++◌ as ◌<>◌}
use pve_zfs_tool.Common.{
  ℕ, String, Bool, true, false, Option, none, some, List, [], ◌∷◌, any, nat_beq, if◌then◌else◌,
  ◌&&◌, ◌||◌, not, ◌==◌, string_eq,
}
use pve_zfs_tool.Common.Dict.{Dict, get}
use pve_zfs_tool.Common.Words.{is_space, is_empty, strip}
use pve_zfs_tool.Validators.{is_alnum}
use pve_zfs_tool.Replication.Cron.{cut}
use pve_zfs_tool.Replication.Pairs.{source_ip}
use pve_zfs_tool.Replication.Config.{serialize_config, lines_of}

-- the values of a request, of which some may be None
abbrev pub Values : Type 0
Values = Dict String (Option String)

-- `values.get(key) or ""`
abbrev pub text_or_empty : Option (Option String) → String
text_or_empty none = ""
text_or_empty (some none) = ""
text_or_empty (some (some v)) = v

abbrev pub safe_char : ℕ → Bool
safe_char c = is_alnum c || nat_beq c b'.' || nat_beq c b'_' || nat_beq c b'-'

unfoldable pub safe_filename : String → String
safe_filename empty = ""
safe_filename (c :: s) =
    let rest = safe_filename s in if safe_char (code c) then c :: rest else "_" :: rest

abbrev pub config_path : String
config_path = "/etc/bashclub/zsync.conf"

-- `source` is empty where there is none
unfoldable pub config_path_for : String → String
config_path_for source =
    if is_empty source || is_empty (source_ip source)
    then config_path
    else "/etc/bashclub/" <> (safe_filename (source_ip source) <> ".conf")

-- `name.split("/", 1)[0]`
abbrev pub pool_of : String → String
pool_of name = elim (cut b'/' name) [ none ↦ name | some (pool, rest) ↦ pool ]

abbrev pub has_slash : String → Bool
has_slash name = elim (cut b'/' name) [ none ↦ false | some _ ↦ true ]

-- a dataset of the host, and whether it carries the tag
abbrev pub Tagged : Type 0
Tagged = String × Bool

unfoldable pub is_source_pool : String → List Tagged → Bool
is_source_pool pool tagged = any (λ d. d.1 && not (is_empty d.0) && pool_of d.0 == pool) tagged

-- `not None and not ""`
unfoldable pub cleaned : Values → Dict String String
cleaned [] = []
cleaned ((k, none) ∷ values) = cleaned values
cleaned ((k, some v) ∷ values) =
    let rest = cleaned values in if is_empty v then rest else (k, v) ∷ rest

abbrev pub default_tag : String
default_tag = "bashclub:zsync"

-- the tag whose datasets are looked up
unfoldable pub tag_of : Values → String
tag_of values =
    let tag = strip is_space (text_or_empty (get "tag" values)) in
    if is_empty tag then default_tag else tag

abbrev pub source_or_value : Option String → Values → String
source_or_value none values = text_or_empty (get "source" values)
source_or_value (some source) values =
    if is_empty source then text_or_empty (get "source" values) else source

pub record Answers : Type 0 where
  pub same_host : String → Bool
  pub tagged : String → List Tagged
  pub existing : Option String

pub data Outcome : Type 0 where
  refused : (path target_pool : String) → Outcome
  written : (path : String) (text : String) → Outcome

-- the target of a request, and whether its pool is one that the host sends from
unfoldable pub target_of : Values → String
target_of values = strip is_space (text_or_empty (get "target" values))

unfoldable pub overlaps : Answers → Values → Option String → Bool
overlaps o values source =
    let target = target_of values in
    not (is_empty target)
    && has_slash target
    && o.same_host (source_ip (strip is_space (source_or_value source values)))
    && is_source_pool (pool_of target) (o.tagged (tag_of values))

unfoldable pub write_config : Answers → Values → Option String → Outcome
write_config o values source =
    let path = config_path_for (source_or_value source values) in
    if overlaps o values source
    then refused path (pool_of (target_of values))
    else written path (serialize_config (cleaned values) (lines_of o.existing))
