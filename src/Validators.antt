-- ===== src/Validators.antt =====
-- app/validators.py. A value is none where it is None or no text, the ValueErrors are data, and
-- `validate_webhook_url`, which splits URLs with the library, is left out. The limit of
-- `validate_limit` is a number or a text.
pub mod Laws
use Prim.Native.Char.{code}
use Prim.Native.String.{[] as empty, ◌∷◌ as ◌:::◌}
use pve_zfs_tool.Common.{
  ℕ, String, Bool, true, false, not, ◌&&◌, ◌||◌, Option, none, some, ◌⊎◌, inl, inr, List, [], ◌∷◌,
  leb, ltb, nat_beq, ◌==◌, string_eq, if◌then◌else◌, contains,
}
use pve_zfs_tool.Common.Scan.{is_digit, has_dots, has_char}
use pve_zfs_tool.Common.Words.{is_space, is_empty, len, all_in, strip}
use pve_zfs_tool.Common.Decimal.{int_from}

abbrev pub max_input_length : ℕ
max_input_length = 512

-- the reasons of the ValueErrors
pub data Invalid : Type 0 where
  required too_long disallowed traversal null_bytes too_large : Invalid

abbrev pub Checked : Type 0
Checked = Invalid ⊎ String

abbrev pub is_lower : ℕ → Bool
is_lower c = leb b'a' c && leb c b'z'

abbrev pub is_alnum : ℕ → Bool
is_alnum c = is_digit c || (leb b'A' c && leb c b'Z') || is_lower c

-- one of the characters of a text
abbrev pub one_of : String → ℕ → Bool
one_of s c = has_char c s

-- the classes of the patterns, for the first character and for the others
abbrev pub zfs_name_rest : ℕ → Bool
zfs_name_rest c = is_alnum c || one_of "_./@:-" c

abbrev pub pool_name_rest : ℕ → Bool
pool_name_rest c = is_alnum c || one_of "_.-" c

abbrev pub zfs_prop_rest : ℕ → Bool
zfs_prop_rest c = is_lower c || is_digit c || one_of "_:.-" c

abbrev pub zfs_value_rest : ℕ → Bool
zfs_value_rest c = is_alnum c || one_of "_./:@=, -" c

abbrev pub path_class : ℕ → Bool
path_class c = is_alnum c || one_of "/_.@ -" c

-- `[class]*$`: `$` also accepts one line break at the end
unfoldable pub match_rest : (ℕ → Bool) → String → Bool
match_rest p empty = true
match_rest p (c ::: s) =
    let rest = match_rest p s in (p (code c) && rest) || (nat_beq (code c) 10 && is_empty s)

-- `^[first][class]*$`
unfoldable pub matches : (first p : ℕ → Bool) → String → Bool
matches first p empty = false
matches first p (c ::: s) = first (code c) && match_rest p s

-- the checks that the validators share: the length, and the pattern
unfoldable pub check_text : (first p : ℕ → Bool) → String → Checked
check_text first p s =
    if ltb max_input_length (len s)
    then inl too_long
    else if matches first p s
    then inr s
    else inl disallowed

-- `if not value or not isinstance(value, str)`, and `strip`
abbrev pub check_required : (String → Checked) → Option String → Checked
check_required check none = inl required
check_required check (some s) = if is_empty s then inl required else check (strip is_space s)

unfoldable pub validate_pool_name : Option String → Checked
validate_pool_name = check_required (check_text is_alnum pool_name_rest)

unfoldable pub validate_zfs_name : Option String → Checked
validate_zfs_name = check_required (check_text is_alnum zfs_name_rest)

unfoldable pub validate_zfs_property : Option String → Checked
validate_zfs_property = check_required (check_text is_lower zfs_prop_rest)

-- only None is refused before the pattern
unfoldable pub validate_zfs_value : Option String → Checked
validate_zfs_value none = inl required
validate_zfs_value (some s) = check_text is_alnum zfs_value_rest (strip is_space s)

-- no limit of the length
unfoldable pub validate_vmid : Option String → Checked
validate_vmid = check_required λ s. if matches is_digit is_digit s then inr s else inl disallowed

unfoldable pub validate_vm_type : Option String → Checked
validate_vm_type none = inl disallowed
validate_vm_type (some s) = if contains s ("qemu" ∷ "lxc" ∷ []) then inr s else inl disallowed

unfoldable pub check_path : String → Checked
check_path s =
    if ltb max_input_length (len s)
    then inl too_long
    else if has_dots s
    then inl traversal
    else if has_char 0 s
    then inl null_bytes
    else if matches path_class path_class s
    then inr s
    else inl disallowed

unfoldable pub validate_path : Option String → Checked
validate_path = check_required check_path

-- the text of a limit, stripped
unfoldable pub check_limit : ℕ → String → Invalid ⊎ ℕ
check_limit maximum s =
    if not (matches is_digit is_digit s)
    then inl disallowed
    else if ltb maximum (int_from 0 s)
    then inl too_large
    else inr (int_from 0 s)

unfoldable pub validate_limit : Option String → (default maximum : ℕ) → Invalid ⊎ ℕ
validate_limit none default maximum = inr default
validate_limit (some s) default maximum = check_limit maximum (strip is_space s)
