-- ===== src/Monitor/Capacity/Alerts.antt =====
-- When app/monitor.py sends a capacity alert for a pool over a run of rounds.
use pve_zfs_tool.Common.{
  ℕ, ◌+◌, ◌*◌, ◌<◌, String, ◌≡◌, refl, Bool, true, ◌&&◌, Option, none, some, List, [], ◌∷◌, ◌++◌,
  arith, ltb, leb, nat_beq, if◌then◌else◌, all,
}
use pve_zfs_tool.Monitor.{
  Value, below, warn, crit, Row, Store, pool_key, state_get, alert_of, cooldown_ok,
}
use pve_zfs_tool.Monitor.Rows.{state_get-set_self}
use pve_zfs_tool.Monitor.Capacity.{capacity_level, Alert, check_pool}

-- one observation of the pool: its fill percentage and the time
pub record Seen : Type 0 where
  pub cap : ℕ
  pub now : ℕ

module _ (address pool : String) (th : ℕ × ℕ) where
  abbrev pub row_of : Store → Option Row
  row_of s = state_get "capacity" (pool_key address pool) s

  abbrev pub check_once : Seen → Store → Store × List Alert
  check_once x s = check_pool address th pool x.cap x.now s

  pub watch : List Seen → Store → Store × List Alert
  watch [] s = (s, [])
  watch (x ∷ xs) s =
      let (s', a) = check_once x s in let (s'', more) = watch xs s' in (s'', a ++ more)

  -- whether an alert may follow one at the given time
  abbrev apart : Option ℕ → ℕ → Bool
  apart none t = true
  apart (some u) t = if nat_beq u 0 then true else leb (u + 12 * 3600) t

  abbrev pub spaced : Option ℕ → List Alert → Bool
  spaced last [] = true
  spaced last (a ∷ rest) = apart last a.at_time && spaced (some a.at_time) rest

  spaced-check_once :
      (x : Seen) (s : Store) (more : List Alert)
      → 0 < x.now
      → spaced (alert_of (row_of (check_once x s).0)) more ≡ true
      → spaced (alert_of (row_of s)) ((check_once x s).1 ++ more) ≡ true
  unfolding check_pool cooldown_ok
  spaced-check_once x s more pos h =
      let level = capacity_level x.cap th.0 th.1 in
      ground (
        arith,
        state_get-set_self "capacity" (pool_key address pool) level (some x.now) s,
        state_get-set_self "capacity" (pool_key address pool) level none s,
      )

  abbrev pub timed : Seen → Bool
  timed x = ltb 0 x.now

  -- Over any rounds after the epoch, two alerts about a pool are at least twelve hours apart, and
  -- the first is so far from the last one on record.
  pub alerts_spaced :
      (xs : List Seen) (s : Store)
      → all timed xs ≡ true
      → spaced (alert_of (row_of s)) (watch xs s).1 ≡ true
  unfolding watch
  alerts_spaced [] s h = refl
  alerts_spaced (x ∷ xs) s h =
      spaced-check_once x s (watch xs (check_once x s).0).1 (ground arith)
        (alerts_spaced xs (check_once x s).0 (ground arith))

  abbrev level_of : Option Row → Value
  level_of none = below
  level_of (some row) = row.value

  level-check_once :
      (x : Seen) (s : Store) → level_of (row_of (check_once x s).0) ≡ capacity_level x.cap th.0 th.1
  unfolding check_pool
  level-check_once x s =
      let level = capacity_level x.cap th.0 th.1 in
      ground (
        arith,
        state_get-set_self "capacity" (pool_key address pool) level (some x.now) s,
        state_get-set_self "capacity" (pool_key address pool) level none s,
      )

  abbrev pub is_crit : Seen → Bool
  is_crit x = leb th.1 x.cap

  crit_once :
      (x : Seen) (s : Store) → is_crit x ≡ true → level_of (row_of (check_once x s).0) ≡ crit
  unfolding capacity_level
  crit_once x s h = ground (arith, level-check_once x s)

  quiet_once :
      (x : Seen) (s : Store)
      → is_crit x ≡ true
      → level_of (row_of s) ≡ crit
      → (check_once x s).1 ≡ []
  unfolding check_pool capacity_level
  quiet_once x s h c = ground arith

  stays_quiet :
      (xs : List Seen) (s : Store)
      → all is_crit xs ≡ true
      → level_of (row_of s) ≡ crit
      → (watch xs s).1 ≡ []
  unfolding watch
  stays_quiet [] s h c = refl
  stays_quiet (x ∷ xs) s h c = ground (
    arith,
    quiet_once x s (ground arith) c,
    stays_quiet xs (check_once x s).0 (ground arith) (crit_once x s (ground arith)),
  )

  lost_once :
      (x : Seen) (s : Store) (t : ℕ)
      → row_of s ≡ some (record { value = warn; last_alert_ts = some t })
      → 0 < t
      → x.now < t + 12 * 3600
      → (check_once x s).1 ≡ []
  unfolding check_pool cooldown_ok
  lost_once x s t h pos soon = ground arith

  -- A pool that was reported at the warning level and reaches the critical one within twelve hours
  -- is not reported again, then or in any later round, for as long as it stays critical.
  pub escalation_lost :
      (x : Seen) (xs : List Seen) (s : Store) (t : ℕ)
      → row_of s ≡ some (record { value = warn; last_alert_ts = some t })
      → 0 < t
      → x.now < t + 12 * 3600
      → all is_crit (x ∷ xs) ≡ true
      → (watch (x ∷ xs) s).1 ≡ []
  unfolding watch
  escalation_lost x xs s t h pos soon c = ground (
    arith,
    lost_once x s t h pos soon,
    stays_quiet xs (check_once x s).0 (ground arith) (crit_once x s (ground arith)),
  )
