-- ===== src/Common/Case.antt =====
-- Texts compared whatever the case of their ASCII letters.
use Prim.Native.Char.{code}
use Prim.Native.Nat.{ℕ, ◌+◌}
use Prim.Native.String.{String, [], ◌∷◌}
use mathlib.Core.Path.{◌≡◌, refl}
use mathlib.Core.Bool.{Bool, true, false, ◌&&◌}
use mathlib.Core.Option.{Option, none, some}
use native.Mathlib.Omega.{arith}
use pve_zfs_tool.Common.Tests.{ltb, leb, nat_beq, if◌then◌else◌}

-- the code of an ASCII letter in lower case
abbrev pub lower_code : ℕ → ℕ
lower_code c = if leb b'A' c && leb c b'Z' then c + 32 else c

-- the text behind a literal, whatever the case of its ASCII letters
unfoldable pub skip_ci : String → String → Option String
skip_ci [] s = some s
skip_ci (c ∷ p) [] = none
skip_ci (c ∷ p) (d ∷ s) =
    let rest = skip_ci p s in
    if nat_beq (lower_code (code c)) (lower_code (code d)) then rest else none

-- equality but for the case of ASCII letters
unfoldable pub same_ci : String → String → Bool
same_ci [] [] = true
same_ci [] (d ∷ s) = false
same_ci (c ∷ p) [] = false
same_ci (c ∷ p) (d ∷ s) = nat_beq (lower_code (code c)) (lower_code (code d)) && same_ci p s

pub same_ci_refl : (s : String) → same_ci s s ≡ true
unfolding same_ci
same_ci_refl [] = refl
same_ci_refl (c ∷ s) = ground (arith, same_ci_refl s)

-- Texts that agree with one text agree with each other.
pub same_ci_trans : (s t u : String) → same_ci s t ≡ true → same_ci s u ≡ same_ci t u
unfolding same_ci
same_ci_trans [] [] u h = refl
same_ci_trans [] (d ∷ t) u h = cc
same_ci_trans (c ∷ s) [] u h = cc
same_ci_trans (c ∷ s) (d ∷ t) [] h = refl
same_ci_trans (c ∷ s) (d ∷ t) (e ∷ u) h = ground (arith, same_ci_trans s t u)

pub same_ci_sym : (s t : String) → same_ci s t ≡ same_ci t s
unfolding same_ci
same_ci_sym [] [] = refl
same_ci_sym [] (d ∷ t) = refl
same_ci_sym (c ∷ s) [] = refl
same_ci_sym (c ∷ s) (d ∷ t) = ground (arith, same_ci_sym s t)

-- Only the empty text agrees with the empty text.
pub same_ci_empty : (t : String) → same_ci "" t ≡ true → t ≡ ""
unfolding same_ci
same_ci_empty [] h = refl
same_ci_empty (c ∷ t) h = cc

-- the order of the texts in lower case
unfoldable pub ci_le : String → String → Bool
ci_le [] t = true
ci_le (c ∷ s) [] = false
ci_le (c ∷ s) (d ∷ t) =
    let rest = ci_le s t in
    if ltb (lower_code (code c)) (lower_code (code d))
    then true
    else if nat_beq (lower_code (code c)) (lower_code (code d))
    then rest
    else false
