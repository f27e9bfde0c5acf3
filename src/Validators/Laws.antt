-- ===== src/Validators/Laws.antt =====
-- What the validators of app/validators.py let through.
use Prim.Native.Char.{code}
use Prim.Native.String.{[] as empty, ◌∷◌ as ◌:::◌}
use pve_zfs_tool.Common.{
  ℕ, String, ◌≡◌, refl, ap, ◌∙◌, ◌≤◌, Bool, true, false, not, ◌||◌, Option, none, some, inr, arith,
  leb, nat_beq, nat_beq_iff,
}
use pve_zfs_tool.Common.Scan.{has_char}
use pve_zfs_tool.Common.Words.{
  is_space, is_empty, len, all_in, clean_end, strip, strip-clean_end, strip_idem,
}
use pve_zfs_tool.Validators.{
  Checked, is_lower, is_alnum, one_of, zfs_name_rest, pool_name_rest, zfs_prop_rest, zfs_value_rest,
  path_class, match_rest, matches, check_text, check_required, validate_pool_name,
  validate_zfs_name, validate_zfs_property, validate_zfs_value, check_path, validate_path,
}

-- a character that a shell gives a meaning, a line break or a NUL
abbrev pub is_meta : ℕ → Bool
is_meta c = leb c 31 || one_of "!#$&'()*;<>?[]^`{|}~" c || nat_beq c 34 || nat_beq c 92 || leb 127 c

abbrev pub is_safe : ℕ → Bool
is_safe c = not (is_meta c)

-- Behind a text that does not end in a line break, `$` accepts none.
match_rest-all :
    (space p : ℕ → Bool) (s : String)
    → space 10 ≡ true
    → clean_end space s ≡ true
    → match_rest p s ≡ true
    → all_in p s ≡ true
unfolding match_rest all_in clean_end
match_rest-all space p empty l h m = refl
match_rest-all space p (c ::: empty) l h m = ground (arith, nat_beq_iff (code c) 10)
match_rest-all space p (c ::: d ::: s) l h m = ground (arith, match_rest-all space p (d ::: s))

all_in-weaken :
    (p q : ℕ → Bool)
    → ((c : ℕ) → p c ≡ true → q c ≡ true)
    → (s : String) → all_in p s ≡ true
    → all_in q s ≡ true
unfolding all_in
all_in-weaken p q le empty h = refl
all_in-weaken p q le (c ::: s) h = ground (arith, le (code c), all_in-weaken p q le s)

zfs_name_rest-safe : (c : ℕ) → zfs_name_rest c ≡ true → is_safe c ≡ true
unfolding has_char
zfs_name_rest-safe c h = ground arith

pool_name_rest-safe : (c : ℕ) → pool_name_rest c ≡ true → is_safe c ≡ true
unfolding has_char
pool_name_rest-safe c h = ground arith

zfs_prop_rest-safe : (c : ℕ) → zfs_prop_rest c ≡ true → is_safe c ≡ true
unfolding has_char
zfs_prop_rest-safe c h = ground arith

zfs_value_rest-safe : (c : ℕ) → zfs_value_rest c ≡ true → is_safe c ≡ true
unfolding has_char
zfs_value_rest-safe c h = ground arith

path_class-safe : (c : ℕ) → path_class c ≡ true → is_safe c ≡ true
unfolding has_char
path_class-safe c h = ground arith

-- the class of the first character within the class of the others
abbrev Within : (first p : ℕ → Bool) → Type 0
Within first p = (c : ℕ) → first c ≡ true → p c ≡ true

matches-all :
    (space first p : ℕ → Bool) (s : String)
    → space 10 ≡ true
    → Within first p
    → clean_end space s ≡ true
    → matches first p s ≡ true
    → (is_empty s ≡ false) × (all_in p s ≡ true)
unfolding matches all_in clean_end match_rest
matches-all space first p empty l w h m = ground arith
matches-all space first p (c ::: empty) l w h m = ground (arith, w (code c))
matches-all space first p (c ::: d ::: s) l w h m =
    ground (arith, w (code c), match_rest-all space p (d ::: s) l)

-- what `check_text` lets through: the text itself, not empty, not too long, of the class
check_text_sound :
    (space first p : ℕ → Bool) (s t : String)
    → space 10 ≡ true
    → Within first p
    → clean_end space s ≡ true
    → check_text first p s ≡ inr t
    → (t ≡ s) × (is_empty t ≡ false) × (all_in p t ≡ true) × (len t ≤ 512)
unfolding check_text
check_text_sound space first p s t l w h m = ground (arith, matches-all space first p s l w h)

-- what a validator lets through: not empty, safe in a shell, not too long, and let through again
abbrev pub Passed : (Option String → Checked) → String → Type 0
Passed check s =
    (is_empty s ≡ false) × (all_in is_safe s ≡ true) × (len s ≤ 512) × (check (some s) ≡ inr s)

module _ (first p : ℕ → Bool) (within : Within first p)
    (safe : (c : ℕ) → p c ≡ true → is_safe c ≡ true) where
  stripped_sound :
      (v t : String)
      → check_text first p (strip is_space v) ≡ inr t
      → (t ≡ strip is_space v) × (is_empty t ≡ false) × (all_in is_safe t ≡ true) × (len t ≤ 512)
  stripped_sound v t h =
      let sound =
        check_text_sound is_space first p (strip is_space v) t refl within
          (strip-clean_end is_space v) h in
      (sound.0, sound.1, all_in-weaken p is_safe safe t sound.2, sound.3)

  stripped_again :
      (v t : String)
      → check_text first p (strip is_space v) ≡ inr t
      → check_text first p (strip is_space t) ≡ inr t
  stripped_again v t h =
      ap (λ u. check_text first p (strip is_space u)) (stripped_sound v t h).0
      ∙ ap (check_text first p) (strip_idem is_space v)
      ∙ h

  required-Passed :
      (v : Option String) (t : String)
      → check_required (check_text first p) v ≡ inr t
      → Passed (check_required (check_text first p)) t
  required-Passed none t h = ground arith
  required-Passed (some s) t h =
      let q : check_text first p (strip is_space s) ≡ inr t = ground arith in
      let (e, n, a, l) = stripped_sound s t q in (n, a, l, ground (arith, stripped_again s t q))

-- the validators of texts
pub data Rule : Type 0 where
  pool_name zfs_name zfs_property zfs_value path : Rule

abbrev pub check_of : Rule → Option String → Checked
check_of pool_name = validate_pool_name
check_of zfs_name = validate_zfs_name
check_of zfs_property = validate_zfs_property
check_of zfs_value = validate_zfs_value
check_of path = validate_path

value-Passed :
    (v : Option String) (t : String) → validate_zfs_value v ≡ inr t → Passed validate_zfs_value t
unfolding validate_zfs_value
value-Passed none t h = ground arith
value-Passed (some s) t h =
    let (e, n, a, l) =
      stripped_sound is_alnum zfs_value_rest (λ c q. ground arith) zfs_value_rest-safe s t h in
    (
      n,
      a,
      l,
      stripped_again is_alnum zfs_value_rest (λ c q. ground arith) zfs_value_rest-safe s t h,
    )

check_path-text : (s t : String) → check_path s ≡ inr t → check_text path_class path_class s ≡ inr t
unfolding check_path check_text
check_path-text s t h = ground arith

path-Passed : (v : Option String) (t : String) → validate_path v ≡ inr t → Passed validate_path t
unfolding validate_path
path-Passed none t h = ground arith
path-Passed (some s) t h =
    let q : check_path (strip is_space s) ≡ inr t = ground arith in
    let (e, n, a, l) =
      stripped_sound path_class path_class (λ c k. k) path_class-safe s t
        (check_path-text (strip is_space s) t q) in
    let again =
      ap (λ u. check_path (strip is_space u)) e ∙ ap check_path (strip_idem is_space s) ∙ q in
    (n, a, l, ground (arith, again))

-- What a validator of a pool, dataset or property name, a property value or a path lets through
-- is not empty, at most 512 characters long, has no character that a shell gives a meaning but
-- the space, in particular no line break although the patterns end in `$`, and is let through
-- unchanged when it is checked again.
pub accepted-Passed :
    (r : Rule) (v : Option String) (t : String) → check_of r v ≡ inr t → Passed (check_of r) t
unfolding validate_pool_name validate_zfs_name validate_zfs_property
accepted-Passed pool_name v t h =
    required-Passed is_alnum pool_name_rest (λ c q. ground arith) pool_name_rest-safe v t h
accepted-Passed zfs_name v t h =
    required-Passed is_alnum zfs_name_rest (λ c q. ground arith) zfs_name_rest-safe v t h
accepted-Passed zfs_property v t h =
    required-Passed is_lower zfs_prop_rest (λ c q. ground arith) zfs_prop_rest-safe v t h
accepted-Passed zfs_value v t h = value-Passed v t h
accepted-Passed path v t h = path-Passed v t h
