-- ===== src/Common/Breaks.antt =====
-- Python's `splitlines`, and texts of lines.
use Prim.Native.Char.{Char, code}
use Prim.Native.String.{String, [] as empty, ◌∷◌ as ◌::◌}
use mathlib.Core.Path.{◌≡◌, refl}
use mathlib.Core.Bool.{Bool, true, false, not, ◌&&◌, ◌||◌}
use mathlib.Core.List.{List, [], ◌∷◌}
use native.Mathlib.Omega.{arith}
use Prim.Native.Nat.{ℕ}
use pve_zfs_tool.Common.Lists.{all}
use pve_zfs_tool.Common.Tests.{leb, nat_beq, if◌then◌else◌}
use pve_zfs_tool.Common.Words.{all_in}

-- the characters at which `splitlines` breaks a text
abbrev pub is_break : ℕ → Bool
is_break c =
    (leb 10 c && leb c 13)
    || (leb 28 c && leb c 30)
    || nat_beq c 133
    || nat_beq c 8232
    || nat_beq c 8233

abbrev starts_newline : String → Bool
starts_newline empty = false
starts_newline (c :: s) = nat_beq (code c) b'\n'

-- a character before the first line
abbrev put_char : Char → List String → List String
put_char c [] = (c :: "") ∷ []
put_char c (l ∷ ls) = (c :: l) ∷ ls

-- `s.splitlines()`: a return and a newline are one break
unfoldable pub split_lines : String → List String
split_lines empty = []
split_lines (c :: s) =
    let rest = split_lines s in
    if nat_beq (code c) b'\r' && starts_newline s
    then rest
    else if is_break (code c)
    then "" ∷ rest
    else put_char c rest

unfoldable pub concat : String → String → String
concat empty t = t
concat (c :: s) t = c :: concat s t

-- each line with a newline behind it
unfoldable pub end_lines : List String → String
end_lines [] = ""
end_lines (l ∷ ls) = concat l ("\n" :: end_lines ls)

-- `"\n".join(ls) + "\n"`
unfoldable pub text_of : List String → String
text_of [] = "\n"
text_of (l ∷ ls) = end_lines (l ∷ ls)

-- a text without a break
abbrev pub is_line : String → Bool
is_line s = all_in (λ c. not (is_break c)) s

split_lines-concat :
    (l t : String) → is_line l ≡ true → split_lines (concat l ("\n" :: t)) ≡ l ∷ split_lines t
unfolding split_lines concat all_in
split_lines-concat empty t h = refl
split_lines-concat (c :: l) t h = ground (arith, split_lines-concat l t)

-- Lines without a break are read back.
pub split_lines-end_lines :
    (ls : List String) → all is_line ls ≡ true → split_lines (end_lines ls) ≡ ls
unfolding end_lines split_lines
split_lines-end_lines [] h = refl
split_lines-end_lines (l ∷ ls) h =
    ground (arith, split_lines-concat l (end_lines ls), split_lines-end_lines ls)

put_char-is_line :
    (c : Char) (ls : List String)
    → is_break (code c) ≡ false
    → all is_line ls ≡ true
    → all is_line (put_char c ls) ≡ true
unfolding all_in
put_char-is_line c [] h k = ground arith
put_char-is_line c (l ∷ ls) h k = ground arith

-- What a text splits into has no break.
pub split_lines-is_line : (s : String) → all is_line (split_lines s) ≡ true
unfolding split_lines all_in
split_lines-is_line empty = refl
split_lines-is_line (c :: s) =
    ground (arith, split_lines-is_line s, put_char-is_line c (split_lines s))

pub concat-is_line :
    (s t : String) → is_line s ≡ true → is_line t ≡ true → is_line (concat s t) ≡ true
unfolding concat all_in
concat-is_line empty t h k = k
concat-is_line (c :: s) t h k = ground (arith, concat-is_line s t)
