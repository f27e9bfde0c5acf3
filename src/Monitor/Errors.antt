-- ===== src/Monitor/Errors.antt =====
-- `check_pool_errors` of app/monitor.py. A pool comes with the total of its three counters.
use pve_zfs_tool.Common.{
  ℕ, ◌+◌, ◌*◌, ◌<◌, String, ◌≡◌, refl, Bool, true, ◌&&◌, Option, none, some, List, [], ◌∷◌, ◌++◌,
  arith, ltb, nat_beq, if◌then◌else◌, all,
}
use pve_zfs_tool.Monitor.{
  digits, Row, Store, pool_key, state_get, state_set, alert_of, cooldown_ok, error_alert_cooldown,
}
use pve_zfs_tool.Monitor.Rows.{state_get-set_self}

pub record Totals : Type 0 where
  pub pool : String
  pub read : ℕ
  pub write : ℕ
  pub cksum : ℕ

pub record ErrorAlert : Type 0 where
  pub pool : String
  pub total : ℕ

-- `int(prev) if prev and prev.isdigit() else 0`
abbrev pub prev_n : Option Row → ℕ
prev_n none = 0
prev_n (some row) = elim row.value [ digits n ↦ n | _ ↦ 0 ]

-- the body of the loop
unfoldable pub check_totals : String → ℕ → Totals → Store → Store × List ErrorAlert
check_totals address now p s =
    let key = pool_key address p.pool in
    let total = p.read + p.write + p.cksum in
    let prev = state_get "pool_errors" key s in
    if nat_beq total (prev_n prev)
    then (s, [])
    else if ltb (prev_n prev) total
        && ltb 0 total
        && cooldown_ok (alert_of prev) error_alert_cooldown now
    then (
      state_set "pool_errors" key (digits total) (some now) s,
      record { pool = p.pool; total = total } ∷ [],
    )
    else (state_set "pool_errors" key (digits total) none s, [])

unfoldable pub check_pool_errors : String → ℕ → List Totals → Store → Store × List ErrorAlert
check_pool_errors address now [] s = (s, [])
check_pool_errors address now (p ∷ ps) s =
    let (s', a) = check_totals address now p s in
    let (s'', more) = check_pool_errors address now ps s' in (s'', a ++ more)

-- one round: the time and the three counters
pub record Counters : Type 0 where
  pub now : ℕ
  pub read : ℕ
  pub write : ℕ
  pub cksum : ℕ

abbrev pub total : Counters → ℕ
total x = x.read + x.write + x.cksum

module _ (address pool : String) where
  abbrev pub row_of : Store → Option Row
  row_of s = state_get "pool_errors" (pool_key address pool) s

  abbrev pub check_once : Counters → Store → Store × List ErrorAlert
  check_once x s =
      check_totals address x.now
        (record { pool = pool; read = x.read; write = x.write; cksum = x.cksum }) s

  pub watch : List Counters → Store → Store × List ErrorAlert
  watch [] s = (s, [])
  watch (x ∷ xs) s =
      let (s', a) = check_once x s in let (s'', more) = watch xs s' in (s'', a ++ more)

  total_once : (x : Counters) (s : Store) → prev_n (row_of (check_once x s).0) ≡ total x
  unfolding check_totals
  total_once x s = ground (
    arith,
    state_get-set_self "pool_errors" (pool_key address pool) (digits (total x)) (some x.now) s,
    state_get-set_self "pool_errors" (pool_key address pool) (digits (total x)) none s,
  )

  abbrev pub has_total : ℕ → Counters → Bool
  has_total n x = nat_beq (total x) n

  settled :
      (n : ℕ) (xs : List Counters) (s : Store)
      → all (has_total n) xs ≡ true
      → prev_n (row_of s) ≡ n
      → (watch xs s).1 ≡ []
  unfolding watch check_totals
  settled n [] s h e = refl
  settled n (x ∷ xs) s h e = ground (arith, settled n xs s)

  lost_once :
      (x : Counters) (s : Store) (n t : ℕ)
      → row_of s ≡ some (record { value = digits n; last_alert_ts = some t })
      → 0 < t
      → x.now < t + 6 * 3600
      → (check_once x s).1 ≡ []
  unfolding check_totals cooldown_ok
  lost_once x s n t h pos soon = ground arith

  -- New errors that appear within six hours of the last alert are recorded and never reported, in
  -- that round or any later one, for as long as the total stays.
  pub new_errors_lost :
      (x : Counters) (xs : List Counters) (s : Store) (n t : ℕ)
      → row_of s ≡ some (record { value = digits n; last_alert_ts = some t })
      → 0 < t
      → n < total x
      → x.now < t + 6 * 3600
      → all (has_total (total x)) xs ≡ true
      → (watch (x ∷ xs) s).1 ≡ []
  unfolding watch
  new_errors_lost x xs s n t h pos more soon same = ground (
    arith,
    lost_once x s n t h pos soon,
    settled (total x) xs (check_once x s).0 same (total_once x s),
  )
