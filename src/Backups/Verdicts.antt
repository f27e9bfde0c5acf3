-- ===== src/Backups/Verdicts.antt =====
-- `backup_state`, `backup_thresholds` and `guest_backup_states` of app/backups.py.
use text.Mathlib.TextEquality.{eq_iff}
use mathlib.Core.Logic.{◌↔◌}
use mathlib.Core.Path.{subst}
use pve_zfs_tool.Common.{
  ℕ, ◌+◌, ◌*◌, ◌≤◌, ◌<◌, String, ◌≡◌, refl, ap, ◌≢◌, Bool, false, ◌&&◌, ◌||◌, Option, none, some,
  List, [], ◌∷◌, arith, string_eq, nat_eq, if◌then◌else◌, contains,
}
use pve_zfs_tool.Common.Dict.{Dict, keys, get, get-put, get-nil}
use pve_zfs_tool.Backups.{Rec, is_failed}
use pve_zfs_tool.Backups.States.{
  State, green, yellow, red, unknown, Verdict, is_blank, is_empty, backup_state, union, non_blank,
  one_state, states_of, guest_backup_states,
}

-- how bad a state is
abbrev pub rank : State → ℕ
rank green = 0
rank unknown = 0
rank yellow = 1
rank red = 2

-- the newest backup is there, in time, verified as far as its storage verifies, and covered
pub record IsSound (rec : Rec) (now warn crit : ℕ) (known : Bool) : Type 0 where
  pub some_backup : 0 < rec.count
  pub dated : 0 < rec.newest
  pub within_crit : now ≤ rec.newest + crit * 3600
  pub within_warn : now ≤ rec.newest + warn * 3600
  pub not_failed : (rec.newest_verifies && is_failed rec.newest_verify) ≡ false
  pub not_pending : (rec.newest_verifies && is_blank rec.newest_verify) ≡ false
  pub covered : (known && is_empty rec.covered_by) ≡ false

module _ (rec : Rec) (now warn crit : ℕ) (known : Bool) where
  green→IsSound :
      (backup_state (some rec) now warn crit known).state ≡ green → IsSound rec now warn crit known
  unfolding backup_state
  green→IsSound h = ground arith

  IsSound→green :
      IsSound rec now warn crit known → (backup_state (some rec) now warn crit known).state ≡ green
  unfolding backup_state
  IsSound→green h = ground arith

IsSound-transfer :
    (rec r : Rec) {now warn crit : ℕ} {known : Bool}
    → some rec ≡ some r
    → IsSound r now warn crit known
    → IsSound rec now warn crit known
IsSound-transfer rec r {now} {warn} {crit} {known} p s =
    let e : r ≡ rec = cc in subst (λ x. IsSound x now warn crit known) e s

none-not_green :
    (now warn crit : ℕ) (known : Bool) → (backup_state none now warn crit known).state ≢ green
unfolding backup_state
none-not_green now warn crit known h = cc

-- A guest is green exactly if it has a record of at least one backup whose newest one has a
-- creation time, is not older than either threshold, neither failed nor awaits a verification on
-- a storage that verifies, and, if the jobs could be read, some job covers the guest.
pub backup_state-green_iff :
    (o : Option Rec) (now warn crit : ℕ) (known : Bool)
    → ((backup_state o now warn crit known).state ≡ green)
      ↔ ((rec : Rec) × (o ≡ some rec) × IsSound rec now warn crit known)
backup_state-green_iff none now warn crit known =
    (λ h. absurd (none-not_green now warn crit known h), λ h. cc (h.1))
backup_state-green_iff (some rec) now warn crit known = (
  λ h. (rec, refl, green→IsSound rec now warn crit known h),
  λ h. IsSound→green rec now warn crit known (IsSound-transfer rec h.0 h.1 h.2),
)

-- As time passes and no backup is made, the verdict on a guest never gets better.
pub backup_state_later :
    (o : Option Rec) (now d warn crit : ℕ) (known : Bool)
    → rank (backup_state o now warn crit known).state
      ≤ rank (backup_state o (now + d) warn crit known).state
unfolding backup_state
backup_state_later none now d warn crit known = omega arith
backup_state_later (some rec) now d warn crit known = ground arith

contains-union :
    (k : String) (xs ys : List String) → contains k (union xs ys) ≡ (contains k xs || contains k ys)
unfolding union
contains-union k [] ys = refl
contains-union k (x ∷ xs) ys =
    ground (arith, contains-union k xs ys, eq_iff k x, contains-congr k x (union xs ys))
  where
    contains-congr : (a b : String) (zs : List String) → a ≡ b → contains a zs ≡ contains b zs
    contains-congr a b zs e = ap (λ c. contains c zs) e

contains-non_blank :
    (k : String) (xs : List String) → k ≢ "" → contains k (non_blank xs) ≡ contains k xs
contains-non_blank k [] h = refl
contains-non_blank k (x ∷ xs) h = ground (arith, contains-non_blank k xs h, eq_iff x "", eq_iff k x)

module _ (bmap : Dict String Rec) (now warn crit : ℕ) (known all_unknown : Bool) where
  abbrev state_at : String → Verdict
  state_at = one_state bmap now warn crit known all_unknown

  get-states_of :
      (k : String) (ks : List String)
      → get k (states_of bmap now warn crit known all_unknown ks)
        ≡ (if contains k ks then some (state_at k) else none)
  unfolding states_of
  get-states_of k [] = get-nil k
  get-states_of k (j ∷ ks) = ground (
    arith,
    get-states_of k ks,
    get-put k j (state_at j) (states_of bmap now warn crit known all_unknown ks),
    eq_iff k j,
    eq_iff j k,
  )

  -- Every guest that has a record or is asked for gets a verdict, and no other guest does.
  pub get-guest_backup_states :
      (k : String) (vmids : List String)
      → k ≢ ""
      → get k (guest_backup_states bmap now warn crit known all_unknown vmids)
        ≡ (if contains k (keys bmap) || contains k vmids then some (state_at k) else none)
  unfolding guest_backup_states
  get-guest_backup_states k vmids h = ground (
    arith,
    get-states_of k (union (keys bmap) (union (non_blank vmids) [])),
    contains-union k (keys bmap) (union (non_blank vmids) []),
    contains-union k (non_blank vmids) [],
    contains-non_blank k vmids h,
  )
