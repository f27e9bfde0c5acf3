-- ===== src/Replication/Cron.antt =====
-- `cron_interval_seconds` of app/replication_monitor.py: the spacing of the firings of a cron
-- expression. `int` is modelled on ASCII digits, without a limit on their number.
pub mod Apart
pub mod Bounds
pub mod Fields
use Prim.Native.Char.{code}
use Prim.Native.String.{[] as empty, ◌∷◌ as ◌::◌}
use pve_zfs_tool.Common.{
  ℕ, zero, suc, ◌+◌, ◌-◌, ◌*◌, max, min, String, Bool, true, false, Option, none, some, List, [],
  ◌∷◌, ◌++◌, map, ltb, leb, nat_beq, if◌then◌else◌, filter, ◌&&◌, ◌==◌, string_eq,
}
use pve_zfs_tool.Common.Scan.{is_digit, ◌>>=◌}
use pve_zfs_tool.Common.Sort.{sorted}
use pve_zfs_tool.Common.Words.{is_space, is_empty, strip, split_on}

-- `s.split()`: the word at the start, which may be empty, and the words behind it
unfoldable pub words_behind : String → String × List String
words_behind empty = ("", [])
words_behind (c :: s) =
    let (word, words) = words_behind s in
    if is_space (code c)
    then ("", if is_empty word then words else word ∷ words)
    else (c :: word, words)

unfoldable pub split_words : String → List String
split_words s = let (word, words) = words_behind s in if is_empty word then words else word ∷ words

-- `s.split(c, 1)` where the character is in the text, none where it is not
unfoldable pub cut : ℕ → String → Option (String × String)
cut k empty = none
cut k (c :: s) =
    let rest = cut k s in
    if nat_beq (code c) k
    then some ("", s)
    else elim rest [ none ↦ none | some (before, behind) ↦ some (c :: before, behind) ]

-- digits, with single underscores between them
unfoldable pub read_digits : (behind_digit : Bool) → ℕ → String → Option ℕ
read_digits behind_digit acc empty = if behind_digit then some acc else none
read_digits behind_digit acc (c :: s) =
    let more = read_digits true (acc * 10 + (code c - 48)) s in
    let gap = read_digits false acc s in
    if is_digit (code c) then more else if nat_beq (code c) b'_' && behind_digit then gap else none

-- `int(s)` of a text without a minus sign
unfoldable pub read_plain : String → Option ℕ
read_plain empty = none
read_plain (c :: s) =
    if nat_beq (code c) b'+' then read_digits false 0 s else read_digits false 0 (c :: s)

-- a number or the negative of one
pub data Number : Type 0 where
  plus minus : ℕ → Number

-- `int(s)`
unfoldable pub read_int : String → Option Number
read_int empty = none
read_int (c :: s) =
    if nat_beq (code c) b'-'
    then read_digits false 0 s >>= (λ n. some (minus n))
    else read_plain (c :: s) >>= (λ n. some (plus n))

-- `max(n, 1)`
abbrev pub step_of : Number → ℕ
step_of (plus n) = max n 1
step_of (minus n) = 1

-- `n + 1`, and 0 for what is below
abbrev pub stop_of : Number → ℕ
stop_of (plus n) = suc n
stop_of (minus zero) = 1
stop_of (minus (suc n)) = 0

-- `range(v, stop, step)`; `stop - v` steps are enough
unfoldable pub range_from : (fuel v stop step : ℕ) → List ℕ
range_from zero v stop step = []
range_from (suc fuel) v stop step =
    let rest = range_from fuel (v + step) stop step in if ltb v stop then v ∷ rest else []

unfoldable pub range : (start stop step : ℕ) → List ℕ
range start stop step = range_from (stop - start) start stop step

-- `sorted(set(l))`
unfoldable pub insert_once : ℕ → List ℕ → List ℕ
insert_once x [] = x ∷ []
insert_once x (y ∷ ys) =
    if ltb x y then x ∷ y ∷ ys else if nat_beq x y then y ∷ ys else y ∷ insert_once x ys

unfoldable pub sorted_set : List ℕ → List ℕ
sorted_set [] = []
sorted_set (x ∷ xs) = insert_once x (sorted_set xs)

-- the numbers from which and up to which, behind it, a part without its step ranges
unfoldable pub ends_of : (lo hi : ℕ) → String → Option (ℕ × ℕ)
ends_of lo hi base = elim (base == "*") [
  | true ↦ some (lo, suc hi)
  | false ↦ elim (cut b'-' base) [
    | some (a, b) ↦ read_plain a >>= λ start. read_int b >>= λ n. some (start, stop_of n)
    | none ↦ read_plain base >>= λ v. some (v, suc v)
  ]
]

abbrev pub in_field : (lo hi v : ℕ) → Bool
in_field lo hi v = leb lo v && leb v hi

abbrev pub fired : (lo hi step : ℕ) → ℕ × ℕ → List ℕ
fired lo hi step (start, stop) = filter (in_field lo hi) (range start stop step)

unfoldable pub expand_split : (lo hi : ℕ) → String → Option (String × String) → Option (List ℕ)
expand_split lo hi part none = ends_of lo hi part >>= λ ends. some (fired lo hi 1 ends)
expand_split lo hi part (some (base, step_s)) =
    read_int step_s >>= λ n. ends_of lo hi base >>= λ ends. some (fired lo hi (step_of n) ends)

-- the body of the loop, none where `int` fails
unfoldable pub expand_part : (lo hi : ℕ) → String → Option (List ℕ)
expand_part lo hi part = expand_split lo hi part (cut b'/' part)

unfoldable pub expand_parts : (lo hi : ℕ) → List String → Option (List ℕ)
expand_parts lo hi [] = some []
expand_parts lo hi (part ∷ parts) =
    let rest = expand_parts lo hi parts in
    expand_part lo hi part >>= λ vs. rest >>= λ more. some (vs ++ more)

unfoldable pub expand_field : String → (lo hi : ℕ) → Option (List ℕ)
expand_field field lo hi =
    let (part, parts) = split_on b',' field in
    expand_parts lo hi (part ∷ parts) >>= λ vs. some (sorted_set vs)

-- the firings of a day, in seconds since 00:00
unfoldable pub firings : (minutes hours : List ℕ) → List ℕ
firings minutes [] = []
firings minutes (h ∷ hours) = map (λ m. h * 3600 + m * 60) minutes ++ firings minutes hours

-- the least of the gaps behind a firing, the one to the first firing of the next day included
unfoldable pub least_gap : (first t : ℕ) → List ℕ → ℕ
least_gap first t [] = 86400 - t + first
least_gap first t (u ∷ ts) = min (u - t) (least_gap first u ts)

unfoldable pub interval_of : List ℕ → Option ℕ
interval_of [] = none
interval_of (t ∷ []) = some 86400
interval_of (t ∷ u ∷ ts) = some (least_gap t t (u ∷ ts))

unfoldable pub interval_between : Option (List ℕ) → Option (List ℕ) → Option ℕ
interval_between none hours = none
interval_between (some minutes) none = none
interval_between (some minutes) (some hours) = interval_of (sorted leb (firings minutes hours))

unfoldable pub interval_of_parts : List String → Option ℕ
interval_of_parts (minute ∷ hour ∷ day ∷ month ∷ weekday ∷ []) =
    interval_between (expand_field minute 0 59) (expand_field hour 0 23)
interval_of_parts _ = none

unfoldable pub cron_interval_seconds : String → Option ℕ
cron_interval_seconds expr = interval_of_parts (split_words (strip is_space expr))
