-- ===== src/Migration/Storage.antt =====
-- The PVE storages of app/migrate.py: `parse_zfs_storages`, `usable_guest_storages`,
-- `check_storage_match` and `suggest_storage_id`. The lines of storage.cfg come as what the two
-- patterns read of them, and names of datasets are ASCII, as ZFS demands.
pub mod Fresh
use Prim.Native.Char.{Char, code}
use Prim.Native.String.{[] as empty, ◌∷◌ as ◌:::◌, ◌++◌ as ◌<>◌}
use pve_zfs_tool.Common.{
  ℕ, zero, suc, ◌+◌, ◌-◌, String, Bool, true, false, not, ◌&&◌, ◌||◌, Option, none, some, List, [],
  ◌∷◌, ◌++◌, map, filter, any, leb, nat_beq, ◌==◌, string_eq, if◌then◌else◌, contains,
}
use pve_zfs_tool.Common.Decimal.{str}
use pve_zfs_tool.Common.Scan.{is_digit, has_char}
use pve_zfs_tool.Common.Words.{is_space, is_empty, strip, rstrip, split_on}

-- one line of storage.cfg: the head of a section with its type and name, an indented key with its
-- value, or any other line
pub data Line : Type 0 where
  head entry : String → String → Line
  neither : Line

pub record Storage : Type 0 where
  pub storage : String
  pub pool : String
  pub content : List String
  pub nodes : List String

abbrev words_of : String × List String → List String
words_of (part, parts) = filter (λ c. not (is_empty c)) (map (strip is_space) (part ∷ parts))

-- `[c.strip() for c in val.split(",") if c.strip()]`
unfoldable pub comma_words : String → List String
comma_words s = words_of (split_on b',' s)

-- a key of the section that is being read
unfoldable pub set_key : String → String → Storage → Storage
set_key key val s =
    if key == "pool"
    then record s { pool = val }
    else if key == "content"
    then record s { content = comma_words val }
    else if key == "nodes"
    then record s { nodes = comma_words val }
    else s

-- the loop over the lines: what follows the section that is being read, none where that one is of
-- another type; a section is listed in the place of its head
unfoldable pub read_lines : Option Storage → List Line → List Storage
read_lines none [] = []
read_lines (some cur) [] = cur ∷ []
read_lines cur (head kind name ∷ lines) =
    let new : Storage = record { storage = name; pool = ""; content = []; nodes = [] } in
    let rest = if kind == "zfspool" then read_lines (some new) lines else read_lines none lines in
    elim cur [ none ↦ rest | some s ↦ s ∷ rest ]
read_lines none (entry key val ∷ lines) = read_lines none lines
read_lines (some s) (entry key val ∷ lines) =
    read_lines (some (set_key key (strip is_space val) s)) lines
read_lines cur (neither ∷ lines) = read_lines cur lines

unfoldable pub parse_zfs_storages : List Line → List Storage
parse_zfs_storages lines = read_lines none lines

abbrev pub is_none : List String → Bool
is_none [] = true
is_none (x ∷ xs) = false

unfoldable pub is_usable : String → Storage → Bool
is_usable node s =
    not (is_empty s.pool)
    && (is_none s.content || contains "images" s.content || contains "rootdir" s.content)
    && (is_none s.nodes || is_empty node || contains node s.nodes)

unfoldable pub usable_guest_storages : List Storage → String → List Storage
usable_guest_storages storages node = filter (is_usable node) storages

-- `next((s for s in storages if s.get("storage") == target_storage), None)`
unfoldable pub find_storage : String → List Storage → Option Storage
find_storage name [] = none
find_storage name (s ∷ ss) = if s.storage == name then some s else find_storage name ss

-- whether it matches, and the suggestions; the message is left out
unfoldable pub check_storage_match :
    List Storage → (target_storage target_root : String) → Bool × List String
check_storage_match storages target_storage target_root =
    let matching = map (λ s. s.storage) (filter (λ s. s.pool == target_root) storages) in
    if is_empty target_storage
    then (false, matching)
    else elim (find_storage target_storage storages) [
      | none ↦ (false, matching)
      | some s ↦ (s.pool == target_root, matching)
    ]

abbrev char_at : ℕ → String → Char
char_at n empty = "-"
char_at zero (c ::: s) = c
char_at (suc n) (c ::: s) = char_at n s

abbrev is_low : ℕ → Bool
is_low c = leb b'a' c && leb c b'z'

-- a character of `.lower()`, and `-` where the pattern `[^a-z0-9._-]` takes it
unfoldable pub id_char : Char → Char
id_char c =
    if leb b'A' (code c) && leb (code c) b'Z'
    then char_at (code c - 65) "abcdefghijklmnopqrstuvwxyz"
    else if is_low (code c) || is_digit (code c) || has_char (code c) "._-"
    then c
    else "-"

unfoldable pub id_chars : String → String
id_chars empty = ""
id_chars (c ::: s) = id_char c ::: id_chars s

abbrev pub last_of : String → List String → String
last_of part [] = part
last_of part (p ∷ ps) = last_of p ps

-- `dataset.rstrip("/").rsplit("/", 1)[-1]`
unfoldable pub leaf : String → String
leaf dataset =
    let (part, parts) = split_on b'/' (rstrip (λ c. nat_beq c b'/') dataset) in last_of part parts

-- `s[:n]`
unfoldable pub take_text : ℕ → String → String
take_text zero s = ""
take_text (suc n) empty = ""
take_text (suc n) (c ::: s) = c ::: take_text n s

abbrev starts_low : String → Bool
starts_low empty = false
starts_low (c ::: s) = is_low (code c)

unfoldable pub storage_base : String → String
storage_base dataset =
    let base = strip (λ c. has_char c "-.") (id_chars (leaf dataset)) in
    take_text 56 (
      if starts_low base
      then base
      else if is_empty base
      then "zfs-storage"
      else strip (λ c. nat_beq c b'-') ("zfs-" <> base))

-- the base, then the base with 2, 3, ... behind it
unfoldable pub candidate : String → ℕ → String
candidate base zero = base
candidate base (suc n) = base <> ("-" ::: str (n + 2))

-- `while cand in ex`, with fuel
unfoldable pub first_free : (fuel n : ℕ) → String → List String → Option String
first_free zero n base ex = none
first_free (suc fuel) n base ex =
    let rest = first_free fuel (suc n) base ex in
    if contains (candidate base n) ex then rest else some (candidate base n)

-- none where the loop needs more rounds than the fuel
unfoldable pub suggest_storage_id : ℕ → String → List String → Option String
suggest_storage_id fuel dataset existing = first_free fuel 0 (storage_base dataset) existing
