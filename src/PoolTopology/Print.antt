-- ===== src/PoolTopology/Print.antt =====
-- The tree of a pool, printed as `zpool status` prints it, for app/pool_topology.py.
use pve_zfs_tool.Common.{
  ℕ, String, ◌≡◌, refl, ap, Bool, true, false, not, ◌&&◌, ◌||◌, none, some, List, [], ◌∷◌, ◌++◌,
  map, arith, ◌==◌, string_eq, nat_beq, if◌then◌else◌, contains, all,
}
use pve_zfs_tool.Common.Case.{same_ci}
use pve_zfs_tool.PoolTopology.{
  Tier, plain, log, cache, special, dedup, spare, Vdev, Line, pool_line, config_line, errors_line,
  entry, tier_of, states, add_device, new_vdev,
}

-- a vdev as it is printed: what stands below it is a list of devices
pub record Node : Type 0 where
  pub tier : Tier
  pub name : String
  pub state : String
  pub below : List String

abbrev pub vdev_of : Node → Vdev
vdev_of n = let v = new_vdev n.tier n.name n.state in record v { devices = v.devices ++ n.below }

abbrev pub tier_number : Tier → ℕ
tier_number plain = 0
tier_number log = 1
tier_number cache = 2
tier_number special = 3
tier_number dedup = 4
tier_number spare = 5

abbrev pub same_tier : Tier → Tier → Bool
same_tier s t = nat_beq (tier_number s) (tier_number t)

abbrev pub is_plain : Tier → Bool
is_plain plain = true
is_plain _ = false

abbrev pub header : Tier → String
header plain = ""
header log = "logs"
header cache = "cache"
header special = "special"
header dedup = "dedup"
header spare = "spares"

abbrev pub device_line : String → Line
device_line d = entry 4 d (some "ONLINE")

-- the head of a section, where the tier changes
abbrev pub head_lines : Tier → Tier → List Line
head_lines t u = if same_tier t u then [] else entry 2 (header u) none ∷ []

abbrev pub print_vdevs : Tier → List Node → List Line
print_vdevs t [] = []
print_vdevs t (n ∷ ns) =
    head_lines t n.tier
    ++ entry 2 n.name (some n.state) ∷ (map device_line n.below ++ print_vdevs n.tier ns)

abbrev pub print_pool : String → List Node → List Line
print_pool pool ns =
    pool_line pool
    ∷ config_line
    ∷ entry 0 "NAME" (some "STATE")
    ∷ entry 0 pool (some "ONLINE")
    ∷ (print_vdevs plain ns ++ errors_line ∷ [])

abbrev pub is_word : String → Bool
is_word name = not (name == "NAME")

-- names that are not the column's head, states that `zpool status` has
abbrev pub is_shown : Node → Bool
is_shown n = is_word n.name && contains n.state states && all is_word n.below

-- the data vdevs stand first
abbrev pub in_order : Tier → List Node → Bool
in_order t [] = true
in_order t (n ∷ ns) = (same_tier t n.tier || not (is_plain n.tier)) && in_order n.tier ns

pub both : (a b : Bool) → (a && b) ≡ true → (a ≡ true) × (b ≡ true)
both a b h = ground arith

pub shown_parts :
    (n : Node)
    → is_shown n ≡ true
    → ((n.name == "NAME") ≡ false) × (contains n.state states ≡ true) × (all is_word n.below ≡ true)
shown_parts n h = parts (n.name == "NAME") (contains n.state states) (all is_word n.below) h
  where
    parts : (a b c : Bool) → (not a && b && c) ≡ true → (a ≡ false) × (b ≡ true) × (c ≡ true)
    parts a b c h = ground arith

pub tier_of-header : (t : Tier) → is_plain t ≡ false → tier_of (header t) ≡ some t
unfolding tier_of same_ci
tier_of-header plain h = cc
tier_of-header log h = refl
tier_of-header cache h = refl
tier_of-header special h = refl
tier_of-header dedup h = refl
tier_of-header spare h = refl

pub same_tier_eq : (s t : Tier) → same_tier s t ≡ true → s ≡ t
same_tier_eq s t h = ground arith

pub add_device-last :
    (d : String) (xs : List Vdev) (w : Vdev)
    → add_device d (xs ++ w ∷ []) ≡ xs ++ record w { devices = w.devices ++ d ∷ [] } ∷ []
unfolding add_device
add_device-last d [] w = refl
add_device-last d (x ∷ []) w = refl
add_device-last d (x ∷ y ∷ xs) w = ap (◌∷◌ x) (add_device-last d (y ∷ xs) w)
