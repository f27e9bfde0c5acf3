-- ===== src/Protection/Laws.antt =====
-- The laws of `protection_state`, `overall_verdict`, `stale_exception` and `merge_backups` of
-- app/backups.py.
use pve_zfs_tool.Common.{
  ℕ, ◌+◌, max, String, ◌≡◌, refl, ap, ◌≢◌, ◌↔◌, Bool, true, false, not, ◌&&◌, ◌||◌, Option, none,
  some, List, [], ◌∷◌, arith, ◌==◌, string_eq, nat_eq, count_if, map,
}
use pve_zfs_tool.Common.Dict.{Dict}
use pve_zfs_tool.Backups.States.{Verdict}
use pve_zfs_tool.Protection.{
  Guest, Matrix, is_red, state_for, attach, merge_loop, counts, merge_backups, Protection, ok,
  accepted, warn, crit, known, has_backup, without_backup, without_copy, protection_state,
  verdict_loop, overall_verdict,
}

abbrev pub rank : Protection → ℕ
rank ok = 0
rank accepted = 0
rank warn = 1
rank crit = 2

abbrev pub worst_rank : List Guest → ℕ
worst_rank [] = 0
worst_rank (g ∷ gs) = max (rank (protection_state g)) (worst_rank gs)

abbrev is_accepted : Protection → Bool
is_accepted accepted = true
is_accepted _ = false

rank-verdict_loop :
    (gs : List Guest) (w : Protection)
    → w ≢ crit
    → rank (verdict_loop gs w) ≡ max (rank w) (worst_rank gs)
unfolding verdict_loop
rank-verdict_loop [] w h = ground arith
rank-verdict_loop (g ∷ gs) w h = ground (arith, rank-verdict_loop gs w h, rank-verdict_loop gs warn)

verdict_loop-not_accepted :
    (gs : List Guest) (w : Protection)
    → is_accepted w ≡ false
    → is_accepted (verdict_loop gs w) ≡ false
unfolding verdict_loop
verdict_loop-not_accepted [] w h = h
verdict_loop-not_accepted (g ∷ gs) w h =
    ground (arith, verdict_loop-not_accepted gs w h, verdict_loop-not_accepted gs warn)

-- The verdict on a host is as bad as its worst guest, an accepted gap counting as no finding, and
-- is itself never `accepted`.
pub overall_verdict-worst :
    (gs : List Guest)
    → (rank (overall_verdict gs) ≡ worst_rank gs) × (overall_verdict gs ≢ accepted)
unfolding overall_verdict
overall_verdict-worst gs = (
  omega (arith, rank-verdict_loop gs ok (λ e. cc)),
  λ e. ground (arith, verdict_loop-not_accepted gs ok),
)

-- no copy, no backup that is known to hold, and no declaration for the gaps that are known
pub record IsExposed (g : Guest) : Type 0 where
  pub consistent : (g.config_mismatch == "") ≡ true
  pub no_copy : g.copy_count ≡ 0
  pub no_backup : has_backup g.backup ≡ false
  pub undeclared :
      (without_copy g.exception && (without_backup g.exception || not (known g.backup))) ≡ false

-- A guest is critical exactly if its configuration is consistent, it has no copy and no backup
-- known to hold, and its declaration does not excuse the missing copy together with a backup that
-- is excused too or could not be read.
pub protection_state-crit_iff : (g : Guest) → (protection_state g ≡ crit) ↔ IsExposed g
unfolding protection_state
protection_state-crit_iff g = (λ h. ground arith, λ h. ground arith)

merge_loop-guests :
    (states : Dict String Verdict) (host : String) (gs : List Guest) (n : ℕ)
    → (merge_loop states host gs n).0 ≡ map (λ g. attach (state_for states host g) g) gs
unfolding merge_loop
merge_loop-guests states host [] n = refl
merge_loop-guests states host (g ∷ gs) n =
    ap (◌∷◌ (attach (state_for states host g) g))
      (merge_loop-guests states host gs (counts (state_for states host g) n))

abbrev pub at_risk : Option Verdict → Bool
at_risk none = false
at_risk (some st) = is_red st.state

merge_loop-count :
    (states : Dict String Verdict) (host : String) (gs : List Guest) (n : ℕ)
    → (merge_loop states host gs n).1 ≡ n + count_if (λ g. at_risk (state_for states host g)) gs
unfolding merge_loop
merge_loop-count states host [] n = omega arith
merge_loop-count states host (g ∷ gs) n =
    ground (arith, merge_loop-count states host gs (counts (state_for states host g) n))

-- Merging touches each guest by itself: the guests of other hosts and those without a verdict
-- stay as they were, the others get theirs, and the count is that of the guests that got a red
-- one.
pub merge_backups_lem :
    (m : Matrix) (states : Dict String Verdict) (host : String)
    → ((merge_backups m states host).guests
        ≡ map (λ g. attach (state_for states host g) g) m.guests)
      × ((merge_backups m states host).backup_at_risk_count
          ≡ count_if (λ g. at_risk (state_for states host g)) m.guests)
unfolding merge_backups
merge_backups_lem m states host = (
  merge_loop-guests states host m.guests 0,
  omega (arith, merge_loop-count states host m.guests 0),
)
