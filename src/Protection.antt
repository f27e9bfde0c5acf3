-- ===== src/Protection.antt =====
-- The second half of app/backups.py: the backup verdicts attached to the replication matrix, and
-- replication and backup judged together.
pub mod Laws
use pve_zfs_tool.Common.{
  ℕ, suc, String, Bool, true, false, not, ◌&&◌, ◌||◌, Option, none, some, List, [], ◌∷◌, ltb, ◌==◌,
  string_eq, nat_eq, if◌then◌else◌,
}
use pve_zfs_tool.Common.Dict.{Dict, get}
use pve_zfs_tool.Backups.States.{Verdict, State, green, yellow, red, unknown, is_empty}

-- what `collect_exceptions` of app/guest_intent.py declares for a guest
pub record Declared : Type 0 where
  pub no_backup : Bool
  pub no_replication : Bool

-- a guest of the replication matrix, as far as the verdicts read it
pub record Guest : Type 0 where
  pub vmid : String
  pub source_host : String
  pub copy_count : ℕ
  pub backup : Option Verdict
  pub exception : Option Declared
  pub config_mismatch : String

pub record Matrix : Type 0 where
  pub guests : List Guest
  pub backup_at_risk_count : ℕ
  pub backup_states_present : Bool

abbrev pub is_red : State → Bool
is_red red = true
is_red _ = false

abbrev pub is_unknown : State → Bool
is_unknown unknown = true
is_unknown _ = false

-- the `continue`s of the loop: the state for this guest, if it is to be touched
unfoldable pub state_for : Dict String Verdict → String → Guest → Option Verdict
state_for states source_host g =
    if not (source_host == "") && not (g.source_host == source_host)
    then none
    else get g.vmid states

abbrev pub attach : Option Verdict → Guest → Guest
attach none g = g
attach (some st) g = record g { backup = some st }

abbrev pub counts : Option Verdict → ℕ → ℕ
counts none n = n
counts (some st) n = if is_red st.state then suc n else n

-- the loop, with the guests already seen left in place
unfoldable pub merge_loop : Dict String Verdict → String → List Guest → ℕ → List Guest × ℕ
merge_loop states source_host [] without = ([], without)
merge_loop states source_host (g ∷ gs) without =
    let st = state_for states source_host g in
    let (rest, n) = merge_loop states source_host gs (counts st without) in (attach st g ∷ rest, n)

unfoldable pub merge_backups : Matrix → Dict String Verdict → String → Matrix
unfolding merge_loop
merge_backups matrix states source_host =
    let (guests, without) = merge_loop states source_host matrix.guests 0 in
    record matrix {
      guests = guests;
      backup_at_risk_count = without;
      backup_states_present = not (is_empty states);
    }

pub data Protection : Type 0 where
  ok accepted warn crit : Protection

abbrev pub known : Option Verdict → Bool
known none = false
known (some bk) = not (is_unknown bk.state)

-- `known and state != STATE_BAD`
abbrev pub has_backup : Option Verdict → Bool
has_backup none = false
has_backup (some bk) = not (is_unknown bk.state) && not (is_red bk.state)

abbrev pub without_backup : Option Declared → Bool
without_backup none = false
without_backup (some exc) = exc.no_backup

abbrev pub without_copy : Option Declared → Bool
without_copy none = false
without_copy (some exc) = exc.no_replication

unfoldable pub protection_state : Guest → Protection
protection_state g =
    let has_copy = ltb 0 g.copy_count in
    let ok_without_backup = without_backup g.exception in
    let ok_without_copy = without_copy g.exception in
    if not (g.config_mismatch == "")
    then warn
    else if not has_copy && not (has_backup g.backup)
    then (if ok_without_backup && ok_without_copy
        then accepted
        else if not (known g.backup) && ok_without_copy
        then accepted
        else crit)
    else if not has_copy
    then ok
    else if known g.backup && not (has_backup g.backup)
    then (if ok_without_backup then accepted else warn)
    else ok

-- the loop, which returns at the first `crit`
unfoldable pub verdict_loop : List Guest → Protection → Protection
verdict_loop [] worst = worst
verdict_loop (g ∷ gs) worst = elim (protection_state g) [
  | crit ↦ crit
  | warn ↦ verdict_loop gs warn
  | ok ↦ verdict_loop gs worst
  | accepted ↦ verdict_loop gs worst
]

unfoldable pub overall_verdict : List Guest → Protection
unfolding verdict_loop
overall_verdict guests = verdict_loop guests ok

-- the text that `stale_exception` returns
pub data Stale : Type 0 where
  not_stale stale_backup stale_replication : Stale

unfoldable pub stale_exception : Guest → Stale
stale_exception g =
    if without_backup g.exception && has_backup g.backup
    then stale_backup
    else if without_copy g.exception && ltb 0 g.copy_count
    then stale_replication
    else not_stale
