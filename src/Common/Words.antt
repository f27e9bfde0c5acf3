-- ===== src/Common/Words.antt =====
-- Python's `strip`, `split` and `len` of a text.
use Prim.Native.Char.{code}
use Prim.Native.Nat.{ℕ, suc}
use Prim.Native.String.{String, [], ◌∷◌}
use mathlib.Core.Path.{◌≡◌, refl, ap, ◌∙◌}
use mathlib.Core.Bool.{Bool, true, false, not, ◌&&◌, ◌||◌}
use mathlib.Core.Option.{Option, none, some}
use mathlib.Core.List.{List, [] as nil, ◌∷◌ as ◌::◌}
use native.Mathlib.Omega.{arith}
use pve_zfs_tool.Common.Tests.{leb, nat_beq, if◌then◌else◌}

-- `c.isspace()`
abbrev pub is_space : ℕ → Bool
is_space c =
    (leb 9 c && leb c 13)
    || (leb 28 c && leb c 32)
    || nat_beq c 133
    || nat_beq c 160
    || nat_beq c 5760
    || (leb 8192 c && leb c 8202)
    || (leb 8232 c && leb c 8233)
    || nat_beq c 8239
    || nat_beq c 8287
    || nat_beq c 12288

abbrev pub is_empty : String → Bool
is_empty [] = true
is_empty (c ∷ s) = false

-- `len(s)`
unfoldable pub len : String → ℕ
len [] = 0
len (c ∷ s) = suc (len s)

-- every character is in the class
unfoldable pub all_in : (ℕ → Bool) → String → Bool
all_in p [] = true
all_in p (c ∷ s) = p (code c) && all_in p s

-- `s.lstrip(...)` and `s.rstrip(...)` of the characters of a class
unfoldable pub lstrip : (ℕ → Bool) → String → String
lstrip p [] = []
lstrip p (c ∷ s) = let rest = lstrip p s in if p (code c) then rest else c ∷ s

unfoldable pub rstrip : (ℕ → Bool) → String → String
rstrip p [] = []
rstrip p (c ∷ s) = let rest = rstrip p s in if p (code c) && is_empty rest then [] else c ∷ rest

-- `s.strip(...)`
unfoldable pub strip : (ℕ → Bool) → String → String
strip p s = rstrip p (lstrip p s)

-- the first and the last character are not in the class
unfoldable pub clean_start : (ℕ → Bool) → String → Bool
clean_start p [] = true
clean_start p (c ∷ s) = not (p (code c))

unfoldable pub clean_end : (ℕ → Bool) → String → Bool
clean_end p [] = true
clean_end p (c ∷ s) = if is_empty s then not (p (code c)) else clean_end p s

-- `s.split(c)` of one character: the parts, at least one
unfoldable pub split_on : ℕ → String → String × List String
split_on k [] = ([], nil)
split_on k (c ∷ s) =
    let (part, parts) = split_on k s in
    if nat_beq (code c) k then ([], part :: parts) else (c ∷ part, parts)

-- the text behind the first such character, none if there is none
unfoldable pub behind_first : ℕ → String → Option String
behind_first k [] = none
behind_first k (c ∷ s) = let rest = behind_first k s in if nat_beq (code c) k then some s else rest

module _ (p : ℕ → Bool) where
  pub lstrip-clean_start : (s : String) → clean_start p (lstrip p s) ≡ true
  unfolding lstrip clean_start
  lstrip-clean_start [] = refl
  lstrip-clean_start (c ∷ s) = ground (arith, lstrip-clean_start s)

  pub rstrip-clean_end : (s : String) → clean_end p (rstrip p s) ≡ true
  unfolding rstrip clean_end
  rstrip-clean_end [] = refl
  rstrip-clean_end (c ∷ s) = ground (arith, rstrip-clean_end s)

  rstrip-clean_start : (s : String) → clean_start p s ≡ true → clean_start p (rstrip p s) ≡ true
  unfolding rstrip clean_start
  rstrip-clean_start [] h = refl
  rstrip-clean_start (c ∷ s) h = ground arith

  pub lstrip_fixed : (s : String) → clean_start p s ≡ true → lstrip p s ≡ s
  unfolding lstrip clean_start
  lstrip_fixed [] h = refl
  lstrip_fixed (c ∷ s) h = ground arith

  pub rstrip_fixed : (s : String) → clean_end p s ≡ true → rstrip p s ≡ s
  unfolding rstrip clean_end
  rstrip_fixed [] h = refl
  rstrip_fixed (c ∷ []) h = ground arith
  rstrip_fixed (c ∷ d ∷ s) h = ground (arith, rstrip_fixed (d ∷ s))

  pub strip-clean_end : (s : String) → clean_end p (strip p s) ≡ true
  unfolding strip
  strip-clean_end s = rstrip-clean_end (lstrip p s)

  -- Stripping twice is stripping once.
  pub strip_idem : (s : String) → strip p (strip p s) ≡ strip p s
  unfolding strip
  strip_idem s =
      ap (rstrip p) (
        lstrip_fixed (rstrip p (lstrip p s))
          (rstrip-clean_start (lstrip p s) (lstrip-clean_start s)))
      ∙ rstrip_fixed (rstrip p (lstrip p s)) (rstrip-clean_end (lstrip p s))
