-- ===== src/Replication/Cron/Bounds.antt =====
-- The interval that `cron_interval_seconds` of app/replication_monitor.py finds.
use pve_zfs_tool.Common.{
  ℕ, ◌+◌, ◌*◌, ◌≤◌, ◌≡◌, refl, Bool, true, Option, none, some, List, [], ◌∷◌, ◌++◌, map, arith, leb,
  all, all-append, String,
}
use pve_zfs_tool.Common.Words.{is_space, strip}
use pve_zfs_tool.Replication.Cron.{
  in_field, expand_field, firings, least_gap, interval_of, interval_between, interval_of_parts,
  cron_interval_seconds, split_words,
}
use pve_zfs_tool.Replication.Cron.Fields.{Field, expand_field_lem}
use pve_zfs_tool.Replication.Cron.Apart.{apart, all_apart, apart_before, sorted-all_apart}

-- 23:59
abbrev last_firing : ℕ
last_firing = 23 * 3600 + 59 * 60

abbrev row_of : (h : ℕ) → List ℕ → List ℕ
row_of h ms = map (λ m. h * 3600 + m * 60) ms

apart-row :
    (h m : ℕ) (ms rest : List ℕ)
    → m ≤ 59
    → all (in_field 0 59) ms ≡ true
    → apart 1 m ms ≡ true
    → apart 60 (h * 3600 + 59 * 60) rest ≡ true
    → apart 60 (h * 3600 + m * 60) (row_of h ms ++ rest) ≡ true
apart-row h m [] rest k i a r =
    apart_before 60 (h * 3600 + m * 60) (h * 3600 + 59 * 60) rest (omega arith) r
apart-row h m (n ∷ ms) rest k i a r = ground (arith, apart-row h n ms rest)

no_firings : (hours : List ℕ) → firings [] hours ≡ []
unfolding firings
no_firings [] = refl
no_firings (h ∷ hours) = no_firings hours

apart-firings :
    (h : ℕ) (minutes hours : List ℕ)
    → all (in_field 0 59) minutes ≡ true
    → all_apart 1 minutes ≡ true
    → apart 1 h hours ≡ true
    → apart 60 (h * 3600 + 59 * 60) (firings minutes hours) ≡ true
unfolding firings
apart-firings h minutes [] i a b = refl
apart-firings h [] (k ∷ hours) i a b = rw (no_firings hours) refl
apart-firings h (m ∷ ms) (k ∷ hours) i a b =
    ground (arith, apart-firings k (m ∷ ms) hours, apart-row k m ms (firings (m ∷ ms) hours))

-- The firings of a day are a minute apart.
all_apart-firings :
    (minutes hours : List ℕ)
    → all (in_field 0 59) minutes ≡ true
    → all_apart 1 minutes ≡ true
    → all_apart 1 hours ≡ true
    → all_apart 60 (firings minutes hours) ≡ true
unfolding firings
all_apart-firings minutes [] i a b = refl
all_apart-firings [] (k ∷ hours) i a b = rw (no_firings hours) refl
all_apart-firings (m ∷ ms) (k ∷ hours) i a b =
    ground (arith, apart-firings k (m ∷ ms) hours, apart-row k m ms (firings (m ∷ ms) hours))

abbrev in_day : ℕ → Bool
in_day t = leb t last_firing

row-in_day :
    (h : ℕ) (ms : List ℕ) → h ≤ 23 → all (in_field 0 59) ms ≡ true → all in_day (row_of h ms) ≡ true
row-in_day h [] k i = refl
row-in_day h (m ∷ ms) k i = ground (arith, row-in_day h ms k)

firings-in_day :
    (minutes hours : List ℕ)
    → all (in_field 0 59) minutes ≡ true
    → all (in_field 0 23) hours ≡ true
    → all in_day (firings minutes hours) ≡ true
unfolding firings
firings-in_day minutes [] i k = refl
firings-in_day minutes (h ∷ hours) i k = ground (
  arith,
  all-append in_day (row_of h minutes) (firings minutes hours),
  row-in_day h minutes,
  firings-in_day minutes hours,
)

abbrev InBounds : ℕ → Type 0
InBounds n = (60 ≤ n) × (n ≤ 86400)

least_gap_lem :
    (first t : ℕ) (ts : List ℕ)
    → first ≤ t
    → in_day t ≡ true
    → all in_day ts ≡ true
    → apart 60 t ts ≡ true
    → InBounds (least_gap first t ts)
unfolding least_gap
least_gap_lem first t [] f d i a = ground arith
least_gap_lem first t (u ∷ ts) f d i a = ground (arith, least_gap_lem first u ts)

-- no interval, or one within the bounds
abbrev pub Spacing : Option ℕ → Type 0
Spacing none = Unit
Spacing (some n) = InBounds n

interval_of_lem :
    (ts : List ℕ) → all in_day ts ≡ true → all_apart 60 ts ≡ true → Spacing (interval_of ts)
unfolding interval_of
interval_of_lem [] i a = tt
interval_of_lem (t ∷ []) i a = (omega arith, omega arith)
interval_of_lem (t ∷ u ∷ ts) i a =
    least_gap_lem t t (u ∷ ts) (omega arith) (ground arith) (ground arith) (ground arith)

interval_between_lem :
    (minutes hours : Option (List ℕ))
    → Field 0 59 minutes
    → Field 0 23 hours
    → Spacing (interval_between minutes hours)
unfolding interval_between
interval_between_lem none hours h k = tt
interval_between_lem (some minutes) none h k = tt
interval_between_lem (some minutes) (some hours) h k =
    let apart_ones = all_apart-firings minutes hours h.0 h.1 k.1 in
    rw (sorted-all_apart 60 (firings minutes hours) apart_ones)
      (interval_of_lem (firings minutes hours) (firings-in_day minutes hours h.0 k.0) apart_ones)

interval_of_parts_lem : (parts : List String) → Spacing (interval_of_parts parts)
unfolding interval_of_parts
interval_of_parts_lem (minute ∷ hour ∷ day ∷ month ∷ weekday ∷ []) =
    interval_between_lem (expand_field minute 0 59) (expand_field hour 0 23)
      (expand_field_lem 0 59 minute) (expand_field_lem 0 23 hour)
interval_of_parts_lem [] = tt
interval_of_parts_lem (a ∷ []) = tt
interval_of_parts_lem (a ∷ b ∷ []) = tt
interval_of_parts_lem (a ∷ b ∷ c ∷ []) = tt
interval_of_parts_lem (a ∷ b ∷ c ∷ d ∷ []) = tt
interval_of_parts_lem (a ∷ b ∷ c ∷ d ∷ e ∷ f ∷ parts) = tt

-- The interval that a cron expression is read as is at least a minute and at most a day; no
-- expression is read as an interval of no seconds.
pub cron_interval_seconds-Spacing : (expr : String) → Spacing (cron_interval_seconds expr)
unfolding cron_interval_seconds
cron_interval_seconds-Spacing expr = interval_of_parts_lem (split_words (strip is_space expr))
