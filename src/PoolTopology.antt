-- ===== src/PoolTopology.antt =====
-- app/pool_topology.py: the tree of vdevs read from `zpool status`, and what it says of the risk.
-- A line is given by what the regular expressions and the columns make of it: the name of the pool
-- that it opens, the head of a section, or an entry with its depth, its name, and its second column
-- in upper case.
pub mod Findings
pub mod Lines
pub mod Print
pub mod RoundTrip
use pve_zfs_tool.Common.{
  ℕ, ◌-◌, String, Bool, true, false, not, ◌&&◌, ◌||◌, Option, none, some, List, [], ◌∷◌, ◌++◌, ltb,
  leb, ◌==◌, string_eq, if◌then◌else◌, any, contains,
}
use pve_zfs_tool.Common.Dict.{Dict, get, put}
use pve_zfs_tool.Common.Scan.{is_mirror, raidz_level, is_draid}
use pve_zfs_tool.Common.Case.{same_ci}

pub data Tier : Type 0 where
  plain log cache special dedup spare : Tier

pub data Redundancy : Type 0 where
  mirror draid single : Redundancy
  raidz : ℕ → Redundancy

pub record Vdev : Type 0 where
  pub tier : Tier
  pub name : String
  pub redundancy : Redundancy
  pub state : String
  pub devices : List String

pub data Line : Type 0 where
  pool_line : String → Line
  config_line errors_line blank : Line
  entry : ℕ → String → Option String → Line

-- `_TIER_HEADERS`
unfoldable pub tier_of : String → Option Tier
tier_of name =
    if same_ci "logs" name || same_ci "log" name
    then some log
    else if same_ci "cache" name
    then some cache
    else if same_ci "special" name
    then some special
    else if same_ci "dedup" name
    then some dedup
    else if same_ci "spares" name || same_ci "spare" name
    then some spare
    else none

abbrev pub states : List String
states =
    "ONLINE" ∷ "DEGRADED" ∷ "FAULTED" ∷ "UNAVAIL" ∷ "OFFLINE" ∷ "REMOVED" ∷ "AVAIL" ∷ "INUSE"
    ∷ "SUSPENDED" ∷ "SPLIT" ∷ []

abbrev pub is_state : Option String → Bool
is_state none = false
is_state (some s) = contains s states

-- `_redundancy`
unfoldable pub redundancy_of : String → Redundancy
redundancy_of name = if is_mirror name then mirror else elim (raidz_level name) [
  | some n ↦ raidz n
  | none ↦ if is_draid name then draid else single
]

-- `open` tells whether `current` is the last vdev of the pool or none
pub record Parse : Type 0 where
  pub pools : Dict String (List Vdev)
  pub pool : Option String
  pub in_config : Bool
  pub tier : Tier
  pub pool_indent : Option ℕ
  pub vdev_indent : Option ℕ
  pub is_open : Bool

abbrev pub start : Parse
start = record {
  pools = [];
  pool = none;
  in_config = false;
  tier = plain;
  pool_indent = none;
  vdev_indent = none;
  is_open = false;
}

abbrev pub vdevs_of : String → Dict String (List Vdev) → List Vdev
vdevs_of pool pools = elim (get pool pools) [ none ↦ [] | some vs ↦ vs ]

-- `current["devices"].append(name)`
unfoldable pub add_device : String → List Vdev → List Vdev
add_device name [] = []
add_device name (v ∷ []) = record v { devices = v.devices ++ name ∷ [] } ∷ []
add_device name (v ∷ w ∷ vs) = v ∷ add_device name (w ∷ vs)

abbrev pub is_single : Redundancy → Bool
is_single single = true
is_single _ = false

abbrev pub new_vdev : Tier → String → String → Vdev
new_vdev tier name state = record {
  tier = tier;
  name = name;
  redundancy = redundancy_of name;
  state = state;
  devices = (if is_single (redundancy_of name) then name ∷ [] else []);
}

abbrev pub or_depth : Option ℕ → ℕ → ℕ
or_depth none d = d
or_depth (some i) d = i

-- a line with a state below the pool's own
unfoldable pub place : String → ℕ → String → String → Parse → Parse
place pool depth name state st =
    if leb depth (or_depth st.vdev_indent depth)
    then record st {
      vdev_indent = some (or_depth st.vdev_indent depth);
      is_open = true;
      pools = put pool (vdevs_of pool st.pools ++ new_vdev st.tier name state ∷ []) st.pools;
    }
    else if st.is_open
    then record st {
      vdev_indent = some (or_depth st.vdev_indent depth);
      pools = put pool (add_device name (vdevs_of pool st.pools)) st.pools;
    }
    else record st { vdev_indent = some (or_depth st.vdev_indent depth) }

abbrev pub text_of : Option String → String
text_of none = ""
text_of (some s) = s

unfoldable pub step_entry : String → ℕ → String → Option String → Parse → Parse
step_entry pool depth name state st = elim st.pool_indent [
  | none ↦ if (name == pool) && is_state state then record st { pool_indent = some depth } else st
  | some i ↦
      if is_state state then place pool depth name (text_of state) st else elim (tier_of name) [
        | none ↦ st
        | some tier ↦ record st { tier = tier; is_open = false }
      ]
]

unfoldable pub step : Line → Parse → Parse
step (pool_line pool) st = record {
  pools = elim (get pool st.pools) [ none ↦ put pool [] st.pools | some vs ↦ st.pools ];
  pool = some pool;
  in_config = false;
  tier = plain;
  pool_indent = none;
  vdev_indent = none;
  is_open = false;
}
step config_line st = record st { in_config = true }
step errors_line st = record st { in_config = false; is_open = false }
step blank st = st
step (entry depth name state) st = elim st.pool [
  | none ↦ st
  | some pool ↦
      if not st.in_config || (name == "NAME") then st else step_entry pool depth name state st
]

unfoldable pub steps : List Line → Parse → Parse
steps [] st = st
steps (l ∷ ls) st = steps ls (step l st)

unfoldable pub parse_topology : List Line → Dict String (List Vdev)
parse_topology lines = (steps lines start).pools
