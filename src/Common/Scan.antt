-- ===== src/Common/Scan.antt =====
-- Scanning a text from the left, as a regular expression of literals and digits does.
use Prim.Native.Char.{code}
use Prim.Native.Nat.{ℕ, zero, suc, ◌+◌, ◌-◌, ◌*◌, ◌<◌}
use Prim.Native.String.{String, [], ◌∷◌}
use mathlib.Core.Path.{◌≡◌, refl}
use mathlib.Core.Bool.{Bool, true, false, ◌&&◌, ◌||◌}
use mathlib.Core.Option.{Option, none, some}
use native.Mathlib.Omega.{arith}
use pve_zfs_tool.Common.Tests.{leb, nat_beq, if◌then◌else◌}
use pve_zfs_tool.Common.Text.{str_le}
use pve_zfs_tool.Common.Case.{lower_code, skip_ci}

infixl 5 ◌>>=◌
abbrev pub ◌>>=◌ {ℓ κ} : {A : Type ℓ} {B : Type κ} → Option A → (A → Option B) → Option B
none >>= f = none
some a >>= f = f a

pub >>=-eq-some {ℓ κ} :
    {A : Type ℓ} {B : Type κ} (m : Option A) (f : A → Option B) {b : B}
    → (m >>= f) ≡ some b
    → (a : A) × (m ≡ some a) × (f a ≡ some b)
>>=-eq-some none f h = cc
>>=-eq-some (some a) f h = (a, refl, h)

abbrev pub is_digit : ℕ → Bool
is_digit c = leb b'0' c && leb c b'9'

-- the text behind a literal
unfoldable pub skip : String → String → Option String
skip [] s = some s
skip (c ∷ p) [] = none
skip (c ∷ p) (d ∷ s) = let rest = skip p s in if nat_beq (code c) (code d) then rest else none

-- `s.startswith(p)`
unfoldable pub starts_with : String → String → Bool
starts_with p s = elim (skip p s) [ none ↦ false | some _ ↦ true ]

-- `s LIKE p || '%'` of SQLite: `_` stands for any character, `%` for any text
unfoldable pub like_prefix : String → String → Bool
like_prefix [] s = true
like_prefix (c ∷ p) [] = nat_beq (code c) b'%' && like_prefix p []
like_prefix (c ∷ p) (d ∷ s) =
    let beyond = like_prefix (c ∷ p) s in
    let here = like_prefix p (d ∷ s) in
    let next = like_prefix p s in
    if nat_beq (code c) b'%'
    then here || beyond
    else (nat_beq (code c) b'_' || nat_beq (lower_code (code c)) (lower_code (code d))) && next

-- `s[len(p):]`
unfoldable pub drop_as : String → String → String
drop_as [] s = s
drop_as (c ∷ p) [] = []
drop_as (c ∷ p) (d ∷ s) = drop_as p s

-- `\d+`, to the end
unfoldable pub all_digits : String → Bool
all_digits [] = true
all_digits (c ∷ s) = is_digit (code c) && all_digits s

-- `(-\d+)?$`
unfoldable pub is_number_suffix : String → Bool
is_number_suffix [] = true
is_number_suffix (c ∷ []) = false
is_number_suffix (c ∷ d ∷ s) = nat_beq (code c) b'-' && is_digit (code d) && all_digits s

-- `^mirror(-\d+)?$`, whatever the case
unfoldable pub is_mirror : String → Bool
is_mirror s = elim (skip_ci "mirror" s) [ none ↦ false | some t ↦ is_number_suffix t ]

unfoldable pub raidz_digit : String → Option ℕ
raidz_digit [] = some 1
raidz_digit (c ∷ t) =
    if leb b'1' (code c) && leb (code c) b'3'
    then (if is_number_suffix t then some (code c - 48) else none)
    else if is_number_suffix (c ∷ t)
    then some 1
    else none

-- `^raidz([123])?(-\d+)?$`, whatever the case: the digit, 1 if there is none
unfoldable pub raidz_level : String → Option ℕ
raidz_level s = elim (skip_ci "raidz" s) [ none ↦ none | some t ↦ raidz_digit t ]

-- `^draid([123])?[^\s]*$` of a name, whatever the case
unfoldable pub is_draid : String → Bool
is_draid s = elim (skip_ci "draid" s) [ none ↦ false | some t ↦ true ]

abbrev pub is_tag_start : ℕ → Bool
is_tag_start c =
    is_digit c || (leb b'A' c && leb c b'Z') || (leb b'a' c && leb c b'z') || nat_beq c b'_'

unfoldable pub is_tag_rest : String → Bool
is_tag_rest [] = true
is_tag_rest (c ∷ s) =
    (is_tag_start (code c)
      || nat_beq (code c) b'-'
      || nat_beq (code c) b'+'
      || nat_beq (code c) b'.')
    && is_tag_rest s

-- `^[A-Za-z0-9_][A-Za-z0-9_\-+.]*$`, of a text without a line break at its end
unfoldable pub is_tag_text : String → Bool
is_tag_text [] = false
is_tag_text (c ∷ s) = is_tag_start (code c) && is_tag_rest s

-- `\d{n}`: the number behind `acc`, and the text behind the digits
unfoldable pub read_digits : ℕ → ℕ → String → Option (ℕ × String)
read_digits zero acc s = some (acc, s)
read_digits (suc n) acc [] = none
read_digits (suc n) acc (c ∷ s) =
    let rest = read_digits n (acc * 10 + (code c - 48)) s in
    if is_digit (code c) then rest else none

-- `c in s`
unfoldable pub has_char : ℕ → String → Bool
has_char k [] = false
has_char k (c ∷ s) = nat_beq (code c) k || has_char k s

-- `".." in s`
unfoldable pub has_dots : String → Bool
has_dots [] = false
has_dots (c ∷ []) = false
has_dots (c ∷ d ∷ s) = (nat_beq (code c) 46 && nat_beq (code d) 46) || has_dots (d ∷ s)

-- what `$` accepts behind a match: the end, or one line break before it
unfoldable pub at_end : String → Bool
at_end [] = true
at_end (c ∷ []) = nat_beq (code c) 10
at_end (c ∷ d ∷ s) = false

-- Behind the same literal two texts are ordered as their rests are.
pub str_le-skip :
    (p s t s' t' : String) → skip p s ≡ some s' → skip p t ≡ some t' → str_le s t ≡ str_le s' t'
unfolding str_le skip
str_le-skip [] s t s' t' h k = ground arith
str_le-skip (c ∷ p) [] t s' t' h k = ground arith
str_le-skip (c ∷ p) (d ∷ s) [] s' t' h k = ground arith
str_le-skip (c ∷ p) (d ∷ s) (e ∷ t) s' t' h k = ground (arith, str_le-skip p s t s' t')

-- A larger number stays larger when equally many digits follow.
pub read_digits-lt :
    (n a b : ℕ) (s t : String) (x y : ℕ) (s' t' : String)
    → read_digits n a s ≡ some (x, s')
    → read_digits n b t ≡ some (y, t')
    → a < b
    → x < y
unfolding read_digits
read_digits-lt zero a b s t x y s' t' h k l = ground arith
read_digits-lt (suc n) a b [] t x y s' t' h k l = ground arith
read_digits-lt (suc n) a b (c ∷ s) [] x y s' t' h k l = ground arith
read_digits-lt (suc n) a b (c ∷ s) (d ∷ t) x y s' t' h k l =
    ground (arith, read_digits-lt n (a * 10 + (code c - 48)) (b * 10 + (code d - 48)) s t x y s' t')

-- After equally many digits, the larger number is the larger text.
pub str_le-digits_lt :
    (n a : ℕ) (s t : String) (x y : ℕ) (s' t' : String)
    → read_digits n a s ≡ some (x, s')
    → read_digits n a t ≡ some (y, t')
    → x < y
    → str_le t s ≡ false
unfolding str_le read_digits
str_le-digits_lt zero a s t x y s' t' h k l = ground arith
str_le-digits_lt (suc n) a [] t x y s' t' h k l = ground arith
str_le-digits_lt (suc n) a (c ∷ s) [] x y s' t' h k l = ground arith
str_le-digits_lt (suc n) a (c ∷ s) (d ∷ t) x y s' t' h k l = ground (
  arith,
  str_le-digits_lt n (a * 10 + (code c - 48)) s t x y s' t',
  read_digits-lt n (a * 10 + (code d - 48)) (a * 10 + (code c - 48)) t s y x t' s',
)

-- After equal numbers of equally many digits, texts are ordered as their rests are.
pub str_le-digits_eq :
    (n a : ℕ) (s t : String) (x : ℕ) (s' t' : String)
    → read_digits n a s ≡ some (x, s')
    → read_digits n a t ≡ some (x, t')
    → str_le s t ≡ str_le s' t'
unfolding str_le read_digits
str_le-digits_eq zero a s t x s' t' h k = ground arith
str_le-digits_eq (suc n) a [] t x s' t' h k = ground arith
str_le-digits_eq (suc n) a (c ∷ s) [] x s' t' h k = ground arith
str_le-digits_eq (suc n) a (c ∷ s) (d ∷ t) x s' t' h k = ground (
  arith,
  str_le-digits_eq n (a * 10 + (code c - 48)) s t x s' t',
  read_digits-lt n (a * 10 + (code d - 48)) (a * 10 + (code c - 48)) t s x x t' s',
  read_digits-lt n (a * 10 + (code c - 48)) (a * 10 + (code d - 48)) s t x x s' t',
)
