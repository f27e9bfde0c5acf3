-- ===== src/HostBackup/Scheduler/Laws.antt =====
-- The messages and the attempts of the host backup scheduler of app/hostbackup.py.
use pve_zfs_tool.Common.{
  ℕ, ◌+◌, String, ◌≡◌, refl, ◌∙◌, Bool, true, false, not, Option, none, some, List, [], ◌∷◌, ◌++◌,
  arith, leb, ◌==◌, string_eq, if◌then◌else◌, eq_iff, filter,
}
use pve_zfs_tool.Common.Dict.{get, get-put, get-remove}
use pve_zfs_tool.HostBackup.Due.{Sched}
use pve_zfs_tool.HostBackup.Scheduler.{
  World, Event, failed, recovered, attempted, Outside, record_failure, record_success, attempt,
  visit_up, visit, tick, ticks,
}

-- whether a failure of the host stands reported
abbrev pub open_at : String → World → Bool
open_at k w = elim (get k w.failing) [ none ↦ false | some _ ↦ true ]

-- what the messages about `k` leave open, none if they do not alternate
abbrev pub after : String → Bool → List Event → Option Bool
after k b [] = some b
after k b (attempted a t ∷ es) = after k b es
after k b (failed a ∷ es) =
    if a == k then elim b [ false ↦ after k true es | true ↦ none ] else after k b es
after k b (recovered a ∷ es) =
    if a == k then elim b [ true ↦ after k false es | false ↦ none ] else after k b es

module _ (k : String) where
  after-append :
      (b c : Bool) (es fs : List Event)
      → after k b es ≡ some c
      → after k b (es ++ fs) ≡ after k c fs
  after-append b c [] fs h = ground arith
  after-append b c (attempted a t ∷ es) fs h = after-append b c es fs h
  after-append b c (failed a ∷ es) fs h =
      ground (arith, after-append true c es fs, after-append b c es fs)
  after-append b c (recovered a ∷ es) fs h =
      ground (arith, after-append false c es fs, after-append b c es fs)

  attempt-after :
      (o : Outside) (a : String) (sched : Sched) (w : World)
      → after k (open_at k w) (attempt o a sched w).1 ≡ some (open_at k (attempt o a sched w).0)
  unfolding attempt record_failure record_success
  attempt-after o a sched w =
      ground (arith, eq_iff a k, get-put k a (o.epoch a) w.failing, get-remove k a w.failing)

  visit_up-after :
      (o : Outside) (a : String) (sched : Sched) (w : World)
      → after k (open_at k w) (visit_up o a sched w).1 ≡ some (open_at k (visit_up o a sched w).0)
  unfolding visit_up
  visit_up-after o a sched w = ground (
    arith,
    attempt-after o a sched
        (record w { standby_logged = filter (λ x. not (x == a)) w.standby_logged }),
  )

  visit-after :
      (o : Outside) (s : String × Sched) (w : World)
      → after k (open_at k w) (visit o s w).1 ≡ some (open_at k (visit o s w).0)
  unfolding visit
  visit-after o (a, sched) w = ground (arith, visit_up-after o a sched w)

  tick-after :
      (o : Outside) (ss : List (String × Sched)) (w : World)
      → after k (open_at k w) (tick o ss w).1 ≡ some (open_at k (tick o ss w).0)
  unfolding tick
  tick-after o [] w = refl
  tick-after o (s ∷ ss) w =
      after-append (open_at k w) (open_at k (visit o s w).0) (visit o s w).1
        (tick o ss (visit o s w).0).1 (visit-after o s w)
      ∙ tick-after o ss (visit o s w).0

  -- Over any ticks, whatever they meet, the failure and the recovery messages about a host
  -- alternate, and one failure stands reported at the end exactly if the host is recorded as
  -- failing.
  pub failures_alternate :
      (ts : List (Outside × List (String × Sched))) (w : World)
      → after k (open_at k w) (ticks ts w).1 ≡ some (open_at k (ticks ts w).0)
  unfolding ticks
  failures_alternate [] w = refl
  failures_alternate ((o, ss) ∷ ts) w =
      after-append (open_at k w) (open_at k (tick o ss w).0) (tick o ss w).1
        (ticks ts (tick o ss w).0).1 (tick-after o ss w)
      ∙ failures_alternate ts (tick o ss w).0

-- whether an attempt may follow one at the given time
abbrev apart : Option ℕ → ℕ → Bool
apart none t = true
apart (some u) t = leb (u + 1800) t

-- the last attempt on `k`, none if two attempts stand too close
abbrev pub last_try : String → Option ℕ → List Event → Option (Option ℕ)
last_try k u [] = some u
last_try k u (attempted a t ∷ es) =
    let rest = last_try k (some t) es in
    if a == k then (if apart u t then rest else none) else last_try k u es
last_try k u (failed a ∷ es) = last_try k u es
last_try k u (recovered a ∷ es) = last_try k u es

module _ (k : String) where
  abbrev pub tried_at : World → Option ℕ
  tried_at w = get k w.last_attempt

  last_try-append :
      (u v : Option ℕ) (es fs : List Event)
      → last_try k u es ≡ some v
      → last_try k u (es ++ fs) ≡ last_try k v fs
  last_try-append u v [] fs h = ground arith
  last_try-append u v (attempted a t ∷ es) fs h =
      ground (arith, last_try-append (some t) v es fs, last_try-append u v es fs)
  last_try-append u v (failed a ∷ es) fs h = last_try-append u v es fs h
  last_try-append u v (recovered a ∷ es) fs h = last_try-append u v es fs h

  attempt-tried :
      (o : Outside) (a : String) (sched : Sched) (w : World) (u : Option ℕ)
      → last_try k u (attempt o a sched w).1 ≡ some u
  unfolding attempt record_failure record_success
  attempt-tried o a sched w u = ground arith

  tried-attempt :
      (o : Outside) (a : String) (sched : Sched) (w : World)
      → tried_at (attempt o a sched w).0 ≡ (if a == k then some (o.epoch a) else tried_at w)
  unfolding attempt record_failure record_success
  tried-attempt o a sched w = ground (arith, get-put k a (o.epoch a) w.last_attempt)

  visit_up-tried :
      (o : Outside) (a : String) (sched : Sched) (w : World)
      → last_try k (tried_at w) (visit_up o a sched w).1 ≡ some (tried_at (visit_up o a sched w).0)
  unfolding visit_up
  visit_up-tried o a sched w =
      let w' : World = record w { standby_logged = filter (λ x. not (x == a)) w.standby_logged } in
      ground (
        arith,
        tried-attempt o a sched w',
        attempt-tried o a sched w' (tried_at w),
        attempt-tried o a sched w' (some (o.epoch a)),
        eq_iff a k,
      )

  visit-tried :
      (o : Outside) (s : String × Sched) (w : World)
      → last_try k (tried_at w) (visit o s w).1 ≡ some (tried_at (visit o s w).0)
  unfolding visit
  visit-tried o (a, sched) w = ground (arith, visit_up-tried o a sched w)

  tick-tried :
      (o : Outside) (ss : List (String × Sched)) (w : World)
      → last_try k (tried_at w) (tick o ss w).1 ≡ some (tried_at (tick o ss w).0)
  unfolding tick
  tick-tried o [] w = refl
  tick-tried o (s ∷ ss) w =
      last_try-append (tried_at w) (tried_at (visit o s w).0) (visit o s w).1
        (tick o ss (visit o s w).0).1 (visit-tried o s w)
      ∙ tick-tried o ss (visit o s w).0

  -- Over any ticks, two backup attempts on a host are at least half an hour apart, the last of
  -- them being the one on record.
  pub attempts_throttled :
      (ts : List (Outside × List (String × Sched))) (w : World)
      → last_try k (tried_at w) (ticks ts w).1 ≡ some (tried_at (ticks ts w).0)
  unfolding ticks
  attempts_throttled [] w = refl
  attempts_throttled ((o, ss) ∷ ts) w =
      last_try-append (tried_at w) (tried_at (tick o ss w).0) (tick o ss w).1
        (ticks ts (tick o ss w).0).1 (tick-tried o ss w)
      ∙ attempts_throttled ts (tick o ss w).0
