-- ===== src/Tuning/Laws.antt =====
-- The bounds of the suggestions of app/tuning.py.
use pve_zfs_tool.Common.{ℕ, ◌+◌, ◌*◌, ◌/◌, ◌≤◌, ◌<◌, max, min, ◌≡◌, some, arith, string_eq}
use mathlib.Core.Path.{ap₂, ◌∙◌}
use pve_zfs_tool.Tuning.{
  suggest_arc_floor, Suggestions, share, clamp_floor, at_most, at_least, arc_suggestions,
}

-- the three suggestions, from the least to the largest, of at least 64 MiB and at most half the memory
abbrev pub Ordered : ℕ → Suggestions → Type 0
Ordered ram s =
    (a : ℕ) × (b : ℕ) × (c : ℕ) × (s.lowest ≡ some a)
    × (s.balanced ≡ some b)
    × (s.highest ≡ some c)
    × (67108864 ≤ a)
    × (a ≤ b)
    × (b ≤ c)
    × (2 * c ≤ ram)

at_most-some : (a b : ℕ) → 0 < a → 0 < b → at_most (some a) (some b) ≡ some (min a b)
unfolding at_most
at_most-some a b p q = ground arith

at_least-some : (a b : ℕ) → 0 < a → 0 < b → at_least (some a) (some b) ≡ some (max a b)
unfolding at_least
at_least-some a b p q = ground arith

share-some : (ram part : ℕ) → 0 < ram → share (some ram) part ≡ some (max 67108864 (ram / part))
unfolding share
share-some ram part p = ground arith

floor-some :
    (pool ram : ℕ)
    → 0 < pool
    → 0 < ram
    → clamp_floor (suggest_arc_floor (some pool)) (some ram)
      ≡ some (min (max (2147483648 + pool / 1024) 67108864) ram)
unfolding clamp_floor suggest_arc_floor
floor-some pool ram p r = ground arith

-- Where the size of the pools and a memory of at least 128 MiB are known, the three suggestions
-- are there, ordered, at least 64 MiB and at most half the memory.
pub arc_suggestions-Ordered :
    (pool ram : ℕ)
    → 0 < pool
    → 134217728 ≤ ram
    → Ordered ram (arc_suggestions (some pool) (some ram))
unfolding arc_suggestions
arc_suggestions-Ordered pool ram p r =
    let floor = min (max (2147483648 + pool / 1024) 67108864) ram in
    let half = max 67108864 (ram / 2) in
    let quarter = max 67108864 (ram / 4) in
    let a = min floor half in
    let b = min (max quarter a) half in
    let highest = share-some ram 2 (omega arith) in
    let balanced = share-some ram 4 (omega arith) in
    let floor_known = floor-some pool ram p (omega arith) in
    let lowest =
      ap₂ at_most floor_known highest ∙ at_most-some floor half (omega arith) (omega arith) in
    let raised =
      ap₂ at_least balanced lowest ∙ at_least-some quarter a (omega arith) (omega arith) in
    let lowered =
      ap₂ at_most raised highest ∙ at_most-some (max quarter a) half (omega arith) (omega arith) in
    (a, b, half, lowest, lowered, highest, omega arith, omega arith, omega arith, omega arith)
