-- ===== src/Replication/Config/Written.antt =====
-- A line that `_serialize_config` of app/replication.py writes, read by `_parse_config`.
use Prim.Native.Char.{Char, code}
use Prim.Native.String.{[] as empty, ◌∷◌ as ◌::◌}
use pve_zfs_tool.Common.{ℕ, ◌≡◌, refl, String, Bool, true, false, some, not, arith, ◌&&◌, nat_beq}
use pve_zfs_tool.Common.Breaks.{concat, is_break, is_line, concat-is_line}
use pve_zfs_tool.Common.Words.{is_space, strip, lstrip, rstrip, all_in, clean_end, rstrip_fixed}
use pve_zfs_tool.Replication.Config.{
  kv, key_first, key_rest, span, drop_quote, unquote, value_of, key_value, is_comment, parse_line,
  is_special, escape, print_value,
}

-- a name that a shell takes
abbrev pub is_key : String → Bool
is_key empty = false
is_key (c :: s) = key_first (code c) && all_in key_rest s

-- a value without the characters that are escaped and without a line break
abbrev pub is_plain : String → Bool
is_plain v = all_in (λ c. not (is_special c) && not (is_break c)) v

escape_plain : (v : String) → is_plain v ≡ true → escape v ≡ v
unfolding escape all_in
escape_plain empty h = refl
escape_plain (c :: v) h = ground (arith, escape_plain v)

span-key :
    (k t : String) → all_in key_rest k ≡ true → span key_rest (concat k ("=" :: t)) ≡ (k, "=" :: t)
unfolding span all_in concat
span-key empty t h = refl
span-key (c :: k) t h = ground (arith, span-key k t)

abbrev quoted : String → String
quoted v = "\"" :: concat v "\""

clean_end-concat : (c : Char) (v : String) → clean_end is_space (c :: concat v "\"") ≡ true
unfolding clean_end concat
clean_end-concat c empty = refl
clean_end-concat c (d :: v) = clean_end-concat d v

drop_quote-concat : (v : String) → drop_quote b'"' (concat v "\"") ≡ some v
unfolding drop_quote concat
drop_quote-concat empty = refl
drop_quote-concat (c :: empty) = refl
drop_quote-concat (c :: d :: v) = ground (arith, drop_quote-concat (d :: v))

strip-quoted : (v : String) → strip is_space (quoted v) ≡ quoted v
unfolding strip lstrip
strip-quoted v = rstrip_fixed is_space (quoted v) (clean_end-concat "\"" v)

value_of-quoted : (v : String) → value_of ("=" :: quoted v) ≡ some v
unfolding value_of unquote
value_of-quoted v = rw (strip-quoted v, drop_quote-concat v) refl

key_not_space : (c : ℕ) → key_first c ≡ true → is_space c ≡ false
key_not_space c h = ground arith

key_not_hash : (c : ℕ) → key_first c ≡ true → nat_beq c b'#' ≡ false
key_not_hash c h = ground arith

key_value-print :
    (c : Char) (k v : String)
    → is_key (c :: k) ≡ true
    → key_value (c :: concat k ("=" :: quoted v)) ≡ some (c :: k, v)
unfolding key_value lstrip
key_value-print c k v h = ground (arith, span-key k (quoted v), value_of-quoted v)

is_comment-key :
    (c : Char) (s : String)
    → key_first (code c) ≡ true
    → is_comment (strip is_space (c :: s)) ≡ false
unfolding strip lstrip rstrip
is_comment-key c s h = ground (arith, key_not_space (code c), key_not_hash (code c))

lstrip-key : (c : Char) (s : String) → key_first (code c) ≡ true → lstrip is_space (c :: s) ≡ c :: s
unfolding lstrip
lstrip-key c s h = ground (arith, key_not_space (code c))

-- A line written for a key and a plain value is read as this key and value.
pub parse_line-print_value :
    (key v : String)
    → is_key key ≡ true
    → is_plain v ≡ true
    → parse_line (print_value key v) ≡ kv key v
unfolding parse_line print_value concat
parse_line-print_value empty v h p = cc
parse_line-print_value (c :: k) v h p =
    rw
      (
        escape_plain v p,
        is_comment-key c (concat k ("=" :: quoted v)) (ground arith),
        lstrip-key c (concat k ("=" :: quoted v)) (ground arith),
        key_value-print c k v h,
      )
      refl

key_no_break : (c : ℕ) → key_rest c ≡ true → is_break c ≡ false
key_no_break c h = ground arith

key_first_rest : (c : ℕ) → key_first c ≡ true → key_rest c ≡ true
key_first_rest c h = ground arith

rest-is_line : (k : String) → all_in key_rest k ≡ true → is_line k ≡ true
unfolding all_in
rest-is_line empty h = refl
rest-is_line (c :: k) h = ground (arith, rest-is_line k, key_no_break (code c))

key-is_line : (k : String) → is_key k ≡ true → is_line k ≡ true
unfolding all_in
key-is_line empty h = refl
key-is_line (c :: k) h =
    ground (arith, rest-is_line k, key_no_break (code c), key_first_rest (code c))

plain-is_line : (v : String) → is_plain v ≡ true → is_line v ≡ true
unfolding all_in
plain-is_line empty h = refl
plain-is_line (c :: v) h = ground (arith, plain-is_line v)

quoted-is_line : (v : String) → is_line v ≡ true → is_line ("=" :: quoted v) ≡ true
unfolding all_in
quoted-is_line v h = concat-is_line v "\"" h refl

-- Such a line has no break.
pub print_value-is_line :
    (key v : String) → is_key key ≡ true → is_plain v ≡ true → is_line (print_value key v) ≡ true
unfolding print_value
print_value-is_line key v h p = rw (escape_plain v p) (
    concat-is_line key ("=" :: quoted v) (key-is_line key h) (quoted-is_line v (plain-is_line v p)))
