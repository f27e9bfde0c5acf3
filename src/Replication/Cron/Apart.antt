-- ===== src/Replication/Cron/Apart.antt =====
-- Ascending numbers a least distance apart: the firings of `cron_interval_seconds` of
-- app/replication_monitor.py.
use pve_zfs_tool.Common.{
  ℕ, ◌+◌, ◌≤◌, ◌≡◌, refl, Bool, true, List, [], ◌∷◌, arith, leb, all, filter, ◌&&◌, string_eq,
}
use pve_zfs_tool.Common.Sort.{sorted, insert}
use pve_zfs_tool.Replication.Cron.{insert_once, sorted_set}

-- the list goes up, by `g` at least, from a number before it
abbrev pub apart : (g t : ℕ) → List ℕ → Bool
apart g t [] = true
apart g t (u ∷ ts) = leb (t + g) u && apart g u ts

abbrev pub all_apart : ℕ → List ℕ → Bool
all_apart g [] = true
all_apart g (t ∷ ts) = apart g t ts

pub apart_before : (g s t : ℕ) (ts : List ℕ) → s ≤ t → apart g t ts ≡ true → apart g s ts ≡ true
apart_before g s t [] k h = refl
apart_before g s t (u ∷ ts) k h = ground arith

apart-insert_once :
    (t x : ℕ) (xs : List ℕ)
    → leb (t + 1) x ≡ true
    → apart 1 t xs ≡ true
    → apart 1 t (insert_once x xs) ≡ true
unfolding insert_once
apart-insert_once t x [] k h = ground arith
apart-insert_once t x (y ∷ ys) k h = ground (arith, apart-insert_once y x ys)

all_apart-insert_once :
    (x : ℕ) (xs : List ℕ) → all_apart 1 xs ≡ true → all_apart 1 (insert_once x xs) ≡ true
unfolding insert_once
all_apart-insert_once x [] h = refl
all_apart-insert_once x (y ∷ ys) h = ground (arith, apart-insert_once y x ys)

-- A sorted set goes up.
pub all_apart-sorted_set : (xs : List ℕ) → all_apart 1 (sorted_set xs) ≡ true
unfolding sorted_set
all_apart-sorted_set [] = refl
all_apart-sorted_set (x ∷ xs) = all_apart-insert_once x (sorted_set xs) (all_apart-sorted_set xs)

all-insert_once :
    (p : ℕ → Bool) (x : ℕ) (xs : List ℕ)
    → p x ≡ true
    → all p xs ≡ true
    → all p (insert_once x xs) ≡ true
unfolding insert_once
all-insert_once p x [] k h = ground arith
all-insert_once p x (y ∷ ys) k h = ground (arith, all-insert_once p x ys)

pub all-sorted_set : (p : ℕ → Bool) (xs : List ℕ) → all p xs ≡ true → all p (sorted_set xs) ≡ true
unfolding sorted_set
all-sorted_set p [] h = refl
all-sorted_set p (x ∷ xs) h =
    ground (arith, all-sorted_set p xs, all-insert_once p x (sorted_set xs))

pub all-filter : (p : ℕ → Bool) (xs : List ℕ) → all p (filter p xs) ≡ true
all-filter p [] = refl
all-filter p (x ∷ xs) = ground (arith, all-filter p xs)

-- A list that goes up is its own sorting.
pub sorted-all_apart : (g : ℕ) (xs : List ℕ) → all_apart g xs ≡ true → sorted leb xs ≡ xs
unfolding sorted insert
sorted-all_apart g [] h = refl
sorted-all_apart g (x ∷ []) h = refl
sorted-all_apart g (x ∷ y ∷ ys) h = ground (arith, sorted-all_apart g (y ∷ ys))
