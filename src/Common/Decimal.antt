-- ===== src/Common/Decimal.antt =====
-- `str(n)` of a number, and the number that decimal digits spell.
use Prim.Native.Char.{Char, code}
use Prim.Native.Nat.{ℕ, zero, suc, ◌+◌, ◌-◌, ◌*◌, ◌/◌, ◌%◌, ◌<◌}
use Prim.Native.String.{String, [], ◌∷◌}
use mathlib.Core.Path.{◌≡◌, refl, ◌∙◌, sym, ap}
use mathlib.Core.Bool.{true, false}
use native.Mathlib.Omega.{arith}
use pve_zfs_tool.Common.Scan.{all_digits}
use pve_zfs_tool.Common.Words.{is_empty}
use pve_zfs_tool.Common.Tests.{ltb, if◌then◌else◌}

unfoldable pub digit_char : ℕ → Char
digit_char zero = "0"
digit_char (suc zero) = "1"
digit_char (suc (suc zero)) = "2"
digit_char (suc (suc (suc zero))) = "3"
digit_char (suc (suc (suc (suc zero)))) = "4"
digit_char (suc (suc (suc (suc (suc zero))))) = "5"
digit_char (suc (suc (suc (suc (suc (suc zero)))))) = "6"
digit_char (suc (suc (suc (suc (suc (suc (suc zero))))))) = "7"
digit_char (suc (suc (suc (suc (suc (suc (suc (suc zero)))))))) = "8"
digit_char n = "9"

-- the digits of `n` before `out`, the last one first; more fuel than `n` is enough
unfoldable pub emit : ℕ → ℕ → String → String
emit zero n out = out
emit (suc fuel) n out =
    let shown = digit_char (n % 10) ∷ out in
    let rest = emit fuel (n / 10) shown in if ltb n 10 then shown else rest

-- `str(n)`
unfoldable pub str : ℕ → String
unfolding emit digit_char
str n = emit (suc n) n ""

-- `int(s)` of a text of digits, behind the digits read so far
unfoldable pub int_from : ℕ → String → ℕ
int_from acc [] = acc
int_from acc (c ∷ s) = int_from (acc * 10 + (code c - 48)) s

code-digit_char : (n : ℕ) → n < 10 → code (digit_char n) ≡ 48 + n
unfolding digit_char
code-digit_char zero h = refl
code-digit_char (suc zero) h = refl
code-digit_char (suc (suc zero)) h = refl
code-digit_char (suc (suc (suc zero))) h = refl
code-digit_char (suc (suc (suc (suc zero)))) h = refl
code-digit_char (suc (suc (suc (suc (suc zero))))) h = refl
code-digit_char (suc (suc (suc (suc (suc (suc zero)))))) h = refl
code-digit_char (suc (suc (suc (suc (suc (suc (suc zero))))))) h = refl
code-digit_char (suc (suc (suc (suc (suc (suc (suc (suc zero)))))))) h = refl
code-digit_char (suc (suc (suc (suc (suc (suc (suc (suc (suc zero))))))))) h = refl
code-digit_char (suc (suc (suc (suc (suc (suc (suc (suc (suc (suc n)))))))))) h = omega arith

int_from-emit :
    (fuel n : ℕ) (out : String) → n < fuel → int_from 0 (emit fuel n out) ≡ int_from n out
unfolding emit int_from
int_from-emit zero n out h = omega arith
int_from-emit (suc fuel) n out h =
    ground
      (arith, int_from-emit fuel (n / 10) (digit_char (n % 10) ∷ out), code-digit_char (n % 10))

-- A number is read back from its decimal print.
pub int_from-str : (n : ℕ) → int_from 0 (str n) ≡ n
unfolding str int_from
int_from-str n = int_from-emit (suc n) n "" (omega arith)

-- Different numbers have different prints.
pub str_inj : (m n : ℕ) → str m ≡ str n → m ≡ n
str_inj m n h = sym (int_from-str m) ∙ ap (int_from 0) h ∙ int_from-str n

all_digits-emit :
    (fuel n : ℕ) (out : String) → all_digits out ≡ true → all_digits (emit fuel n out) ≡ true
unfolding emit all_digits
all_digits-emit zero n out h = h
all_digits-emit (suc fuel) n out h =
    ground
      (arith, code-digit_char (n % 10), all_digits-emit fuel (n / 10) (digit_char (n % 10) ∷ out))

-- The print of a number has nothing but digits.
pub all_digits-str : (n : ℕ) → all_digits (str n) ≡ true
unfolding str all_digits
all_digits-str n = all_digits-emit (suc n) n "" refl

emit-ne_empty : (fuel n : ℕ) (d : Char) (out : String) → is_empty (emit fuel n (d ∷ out)) ≡ false
unfolding emit
emit-ne_empty zero n d out = refl
emit-ne_empty (suc fuel) n d out =
    ground (arith, emit-ne_empty fuel (n / 10) (digit_char (n % 10)) (d ∷ out))

pub str-ne_empty : (n : ℕ) → is_empty (str n) ≡ false
unfolding str emit
str-ne_empty n = ground (arith, emit-ne_empty n (n / 10) (digit_char (n % 10)) "")
