-- ===== src/Replication/Config.antt =====
-- `_parse_config` and `_serialize_config` of app/replication.py: the configuration files of
-- bashclub-zsync.
pub mod Written
pub mod Kept
pub mod Write
use Prim.Native.Char.{code}
use Prim.Native.String.{[] as empty, ◌∷◌ as ◌::◌}
use pve_zfs_tool.Common.{
  ℕ, String, Bool, true, false, Option, none, some, List, [], ◌∷◌, ◌++◌, nat_beq, if◌then◌else◌,
  ◌&&◌, ◌||◌, string_eq, not, ◌==◌,
}
use pve_zfs_tool.Common.Breaks.{split_lines, text_of, concat}
use pve_zfs_tool.Common.Dict.{Dict, get, put}
use pve_zfs_tool.Common.Scan.{is_digit}
use pve_zfs_tool.Common.Words.{is_space, is_empty, strip, lstrip}
use pve_zfs_tool.Validators.{is_alnum}

pub data Line : Type 0 where
  raw : String → Line
  kv : (key value : String) → Line

abbrev pub key_first : ℕ → Bool
key_first c = is_alnum c && not (is_digit c) || nat_beq c b'_'

abbrev pub key_rest : ℕ → Bool
key_rest c = is_alnum c || nat_beq c b'_'

-- the characters of the class at the start, and the text behind them
unfoldable pub span : (ℕ → Bool) → String → String × String
span p empty = ("", "")
span p (c :: s) =
    let (run, rest) = span p s in if p (code c) then (c :: run, rest) else ("", c :: s)

abbrev pub is_quote : ℕ → Bool
is_quote c = nat_beq c b'\'' || nat_beq c b'"'

-- the text without the quote `q` at its end, none where it does not end in one
unfoldable pub drop_quote : (q : ℕ) → String → Option String
drop_quote q empty = none
drop_quote q (c :: s) =
    if is_empty s
    then (if nat_beq (code c) q then some "" else none)
    else elim (drop_quote q s) [ none ↦ none | some t ↦ some (c :: t) ]

-- one layer of matching quotes
unfoldable pub unquote : String → String
unquote empty = ""
unquote (c :: s) =
    if is_quote (code c)
    then elim (drop_quote (code c) s) [ none ↦ c :: s | some t ↦ t ]
    else c :: s

-- behind a key: `\s*=\s*(.*?)\s*$`
unfoldable pub value_of : String → Option String
value_of empty = none
value_of (c :: s) = if nat_beq (code c) b'=' then some (unquote (strip is_space s)) else none

-- `_KV_RE`, with the quotes off the value
unfoldable pub key_value : String → Option (String × String)
key_value empty = none
key_value (c :: s) =
    let (run, rest) = span key_rest s in
    if key_first (code c)
    then elim (value_of (lstrip is_space rest)) [ none ↦ none | some v ↦ some (c :: run, v) ]
    else none

-- `not stripped or stripped.startswith("#")`
abbrev pub is_comment : String → Bool
is_comment empty = true
is_comment (c :: s) = nat_beq (code c) b'#'

unfoldable pub parse_line : String → Line
parse_line s =
    if is_comment (strip is_space s)
    then raw s
    else elim (key_value (lstrip is_space s)) [ none ↦ raw s | some (key, v) ↦ kv key v ]

unfoldable pub parse_lines : List String → List Line
parse_lines [] = []
parse_lines (s ∷ ss) = parse_line s ∷ parse_lines ss

-- `values[key] = val` for each line
unfoldable pub read_values : List Line → Dict String String → Dict String String
read_values [] d = d
read_values (raw s ∷ ls) d = read_values ls d
read_values (kv key v ∷ ls) d = read_values ls (put key v d)

pub record Parsed : Type 0 where
  pub values : Dict String String
  pub lines : List Line

unfoldable pub parse_config : String → Parsed
parse_config text =
    let ls = parse_lines (split_lines text) in record { values = read_values ls []; lines = ls }

-- the characters that `_escape` puts a backslash before
abbrev pub is_special : ℕ → Bool
is_special c = nat_beq c b'\\' || nat_beq c b'"' || nat_beq c b'$' || nat_beq c b'`'

unfoldable pub escape : String → String
escape empty = ""
escape (c :: s) =
    let rest = escape s in if is_special (code c) then "\\" :: c :: rest else c :: rest

unfoldable pub print_value : String → String → String
print_value key v = concat key ("=" :: "\"" :: concat (escape v) "\"")

-- the existing lines with the values in place, without those of keys that are gone
unfoldable pub kept_lines : List Line → Dict String String → List String
kept_lines [] values = []
kept_lines (raw s ∷ ls) values = s ∷ kept_lines ls values
kept_lines (kv key old ∷ ls) values =
    let rest = kept_lines ls values in
    elim (get key values) [ none ↦ rest | some v ↦ print_value key v ∷ rest ]

-- whether a line of the key exists, so that its value is in place
unfoldable pub has_line : String → List Line → Bool
has_line key [] = false
has_line key (raw s ∷ ls) = has_line key ls
has_line key (kv j v ∷ ls) = j == key || has_line key ls

unfoldable pub new_lines : List Line → Dict String String → List String
new_lines ls [] = []
new_lines ls ((key, v) ∷ values) =
    let rest = new_lines ls values in if has_line key ls then rest else print_value key v ∷ rest

unfoldable pub out_lines : Dict String String → Option (List Line) → List String
out_lines values none = new_lines [] values
out_lines values (some ls) = kept_lines ls values ++ new_lines ls values

unfoldable pub serialize_config : Dict String String → Option (List Line) → String
serialize_config values existing = text_of (out_lines values existing)

-- the lines of the file that a configuration replaces, if there is one that is not empty
abbrev pub lines_of : Option String → Option (List Line)
lines_of none = none
lines_of (some text) = if is_empty text then none else some (parse_config text).lines
