-- ===== src/Autosnap/Enabled.antt =====
-- Disabling a level of app/autosnap.py.
use Prim.Native.Char.{Char, code}
use Prim.Native.String.{[] as empty, ◌∷◌ as ◌::◌}
use pve_zfs_tool.Common.{
  ℕ, ◌≡◌, refl, ◌∙◌, String, Bool, true, false, Option, none, some, List, [], ◌∷◌, nat_beq, arith,
  if◌then◌else◌, Bool-cases, inl, inr,
}
use pve_zfs_tool.Common.Scan.{skip}
use pve_zfs_tool.Common.Words.{is_space, strip, lstrip}
use pve_zfs_tool.Autosnap.{
  run_of, join, is_hash, starts_hash, is_command_line, line_is_commented, keep_here, keep_in, Level,
  parse_from, parse_level, indent_of, set_line_enabled, update_level_content,
}

keep_here_dash : (c : Char) (s : String) → nat_beq (code c) b'-' ≡ false → keep_here (c :: s) ≡ none
unfolding keep_here skip
keep_here_dash c s h = ground arith

keep_in-skipped :
    (c : Char) (s : String) → nat_beq (code c) b'-' ≡ false → keep_in (c :: s) ≡ keep_in s
unfolding keep_in
keep_in-skipped c s h = ground (arith, keep_here_dash c s h)

join_empty : (t : String) → join "" t ≡ t
unfolding join
join_empty t = refl

join_cons : (c : Char) (s t : String) → join (c :: s) t ≡ c :: join s t
unfolding join
join_cons c s t = refl

module _ (p : ℕ → Bool) where
  lstrip-join : (line t : String) → lstrip p t ≡ t → lstrip p (join (run_of p line) t) ≡ t
  unfolding lstrip run_of
  lstrip-join empty t h = rw (join_empty t) h
  lstrip-join (c :: line) t h =
      ground (arith, lstrip-join line t, join_empty t, join_cons c (run_of p line) t)

  lstrip_idem : (line : String) → lstrip p (lstrip p line) ≡ lstrip p line
  unfolding lstrip
  lstrip_idem empty = refl
  lstrip_idem (c :: line) = ground (arith, lstrip_idem line)

  -- a match does not begin with a character of the class
  module _ (no_dash : (c : ℕ) → p c ≡ true → nat_beq c b'-' ≡ false) where
    keep_in-join : (line t : String) → keep_in (join (run_of p line) t) ≡ keep_in t
    unfolding run_of
    keep_in-join empty t = rw (join_empty t) refl
    keep_in-join (c :: line) t = ground (
      arith,
      keep_in-join line t,
      join_empty t,
      join_cons c (run_of p line) t,
      no_dash (code c),
      keep_in-skipped c (join (run_of p line) t),
    )

    keep_in-lstrip : (line : String) → keep_in (lstrip p line) ≡ keep_in line
    unfolding lstrip
    keep_in-lstrip empty = refl
    keep_in-lstrip (c :: line) =
        ground (arith, keep_in-lstrip line, no_dash (code c), keep_in-skipped c line)

space_no_dash : (c : ℕ) → is_space c ≡ true → nat_beq c b'-' ≡ false
space_no_dash c h = ground arith

abbrev commented : String → String
commented s = "#" :: " " :: s

keep_in-commented : (s : String) → keep_in (commented s) ≡ keep_in s
keep_in-commented s = keep_in-skipped "#" (" " :: s) refl ∙ keep_in-skipped " " s refl

-- an active line, disabled
abbrev disabled : String → String
disabled line = join (indent_of line) (commented (lstrip is_space line))

lstrip-disabled :
    (line : String) → lstrip is_space (disabled line) ≡ commented (lstrip is_space line)
unfolding lstrip
lstrip-disabled line = lstrip-join is_space line (commented (lstrip is_space line)) refl

keep_in-disabled : (line : String) → keep_in (disabled line) ≡ keep_in line
keep_in-disabled line =
    keep_in-join is_space space_no_dash line (commented (lstrip is_space line))
    ∙ keep_in-commented (lstrip is_space line)
    ∙ keep_in-lstrip is_space space_no_dash line

lstrip-no_hash : (s : String) → starts_hash s ≡ false → lstrip is_hash s ≡ s
unfolding lstrip
lstrip-no_hash empty h = refl
lstrip-no_hash (c :: s) h = ground arith

strip-commented :
    (s : String)
    → starts_hash s ≡ false
    → strip is_space (lstrip is_hash (commented s)) ≡ strip is_space (lstrip is_hash s)
unfolding strip lstrip
strip-commented s h = rw (lstrip-no_hash s h) refl

is_command_line-disabled :
    (line label : String)
    → line_is_commented line ≡ false
    → is_command_line (disabled line) label ≡ is_command_line line label
unfolding is_command_line line_is_commented
is_command_line-disabled line label h =
    rw (lstrip-disabled line, strip-commented (lstrip is_space line) h) refl

-- the line with its level switched off
abbrev switched : String → String
switched line = set_line_enabled line false

record IsOff (line : String) : Type 0 where
  still_commented : line_is_commented (switched line) ≡ true
  same_command :
      (label : String) → is_command_line (switched line) label ≡ is_command_line line label
  same_keep : keep_in (switched line) ≡ keep_in line

switched_active : (line : String) → line_is_commented line ≡ false → switched line ≡ disabled line
unfolding set_line_enabled line_is_commented
switched_active line h = rw h refl

switched_commented : (line : String) → line_is_commented line ≡ true → switched line ≡ line
unfolding set_line_enabled line_is_commented
switched_commented line h = rw h refl

commented-disabled : (line : String) → line_is_commented (disabled line) ≡ true
unfolding line_is_commented
commented-disabled line = rw (lstrip-disabled line) refl

switched-IsOff : (line : String) → IsOff line
switched-IsOff line = elim (Bool-cases (line_is_commented line)) [
  | inl h ↦ record {
    still_commented = rw (switched_commented line h) h;
    same_command = λ label. rw (switched_commented line h) refl;
    same_keep = rw (switched_commented line h) refl;
  }
  | inr h ↦ record {
    still_commented = rw (switched_active line h) (commented-disabled line);
    same_command = λ label. rw (switched_active line h) (is_command_line-disabled line label h);
    same_keep = rw (switched_active line h) (keep_in-disabled line);
  }
]

module _ (label : String) where
  abbrev turned_off : List String → List String
  turned_off lines = update_level_content lines label none (some false)

  -- the level of the first command line, off
  abbrev pub first_off : List String → Option Level
  first_off [] = none
  first_off (line ∷ lines) =
      let rest = first_off lines in
      if is_command_line line label
      then some (record { keep = keep_in line; enabled = false })
      else rest

  candidate_stays :
      (l : Level) (lines : List String) → parse_from (some l) (turned_off lines) label ≡ some l
  unfolding parse_from update_level_content
  candidate_stays l [] = refl
  candidate_stays l (line ∷ lines) =
      let o = switched-IsOff line in
      ground (arith, candidate_stays l lines, o.still_commented, o.same_command label)

  -- A file in which a level is disabled reads back as this level off, with the number that its
  -- first command line keeps, whatever lines were active before; a file without the level stays
  -- without it.
  pub parse_level-turned_off :
      (lines : List String)
      → parse_level (update_level_content lines label none (some false)) label ≡ first_off lines
  unfolding parse_level parse_from update_level_content
  parse_level-turned_off [] = refl
  parse_level-turned_off (line ∷ lines) =
      let o = switched-IsOff line in
      ground (
        arith,
        parse_level-turned_off lines,
        candidate_stays (record { keep = keep_in line; enabled = false }) lines,
        o.still_commented,
        o.same_command label,
        o.same_keep,
      )
