-- ===== src/Monitor/Health.antt =====
-- `check_pool_health`, `clear_vanished_pool_state`, `_state_keys` and `clear_host_state` of
-- app/monitor.py. The health of a pool is in upper case; values of the scope pool_health are texts.
pub mod Messages
pub mod Removal
use pve_zfs_tool.Common.{
  ℕ, String, Bool, true, false, not, ◌&&◌, ◌||◌, Option, none, some, List, [], ◌∷◌, ◌++◌, ◌==◌,
  string_eq, if◌then◌else◌, filter, any, contains,
}
use pve_zfs_tool.Common.Dict.{Dict}
use pve_zfs_tool.Common.Scan.{like_prefix, drop_as}
use pve_zfs_tool.Common.Case.{same_ci, skip_ci}
use pve_zfs_tool.Monitor.{Value, Row, Store, pool_key, state_get, state_set, state_delete}

abbrev pub bad_health : List String
bad_health = "DEGRADED" ∷ "FAULTED" ∷ "UNAVAIL" ∷ "REMOVED" ∷ "SUSPENDED" ∷ []

pub record Pool : Type 0 where
  pub name : String
  pub health : String

pub data PoolNote : Type 0 where
  turned_bad recovered gone : String → PoolNote

abbrev pub is_text : String → Value → Bool
is_text t v = elim v [ Value.text u ↦ u == t | _ ↦ false ]

abbrev pub is_bad : Value → Bool
is_bad v = elim v [ Value.text u ↦ contains u bad_health | _ ↦ false ]

-- the message on a change
unfoldable pub health_note : String → Value → String → List PoolNote
health_note pool prev health =
    if contains health bad_health
    then turned_bad pool ∷ []
    else if is_bad prev && (health == "ONLINE")
    then recovered pool ∷ []
    else []

-- the body of the loop
unfoldable pub check_one_health : String → ℕ → Pool → Store → Store × List PoolNote
check_one_health address now p s =
    if (p.name == "") || (p.health == "")
    then (s, [])
    else elim (state_get "pool_health" (pool_key address p.name) s) [
      | none ↦ (state_set "pool_health" (pool_key address p.name) (Value.text p.health) none s, [])
      | some prev ↦ if is_text p.health prev.value then (s, []) else (
        state_set "pool_health" (pool_key address p.name) (Value.text p.health) (some now) s,
        health_note p.name prev.value p.health,
      )
    ]

unfoldable pub check_pool_health : String → ℕ → List Pool → Store → Store × List PoolNote
check_pool_health address now [] s = (s, [])
check_pool_health address now (p ∷ ps) s =
    let (s', a) = check_one_health address now p s in
    let (s'', more) = check_pool_health address now ps s' in (s'', a ++ more)

-- the keys of a scope that the pattern matches, with their values
unfoldable pub state_keys : String → String → Store → List (String × Value)
state_keys scope key_prefix [] = []
state_keys scope key_prefix (((sc, key), row) ∷ s) =
    let rest = state_keys scope key_prefix s in
    if (sc == scope) && like_prefix key_prefix key then (key, row.value) ∷ rest else rest

-- the body of the inner loop; `upper` ignores the case of the stored text
abbrev pub was_bad : String → Value → Bool
was_bad scope v =
    (scope == "pool_health")
    && elim v [ Value.text u ↦ any (λ b. same_ci b u) bad_health | _ ↦ false ]

unfoldable pub drop_keys :
    String → String → List String → List (String × Value) → Store → Store × List PoolNote
drop_keys scope key_prefix current [] s = (s, [])
drop_keys scope key_prefix current ((key, value) ∷ ks) s =
    let pool_name = drop_as key_prefix key in
    let kept = drop_keys scope key_prefix current ks s in
    let (s', more) = drop_keys scope key_prefix current ks (state_delete scope key s) in
    if contains pool_name current
    then kept
    else (s', (if was_bad scope value then gone pool_name ∷ more else more))

unfoldable pub drop_scopes : List String → String → List String → Store → Store × List PoolNote
drop_scopes [] key_prefix current s = (s, [])
drop_scopes (scope ∷ scopes) key_prefix current s =
    let (s', a) = drop_keys scope key_prefix current (state_keys scope key_prefix s) s in
    let (s'', more) = drop_scopes scopes key_prefix current s' in (s'', a ++ more)

abbrev pub pool_scopes : List String
pool_scopes = "pool_health" ∷ "capacity" ∷ "pool_errors" ∷ "pool_topology" ∷ []

unfoldable pub clear_vanished_pool_state : String → List String → Store → Store × List PoolNote
clear_vanished_pool_state address names s =
    drop_scopes pool_scopes (pool_key address "") (filter (λ n. not (n == "")) names) s

-- with the wildcards of the address escaped, `LIKE` compares up to the case of ASCII letters
abbrev pub is_of_host : String → String → String → Bool
is_of_host address scope key =
    (scope == "host") && (key == address)
    || elim (skip_ci (pool_key address "") key) [ none ↦ false | some _ ↦ true ]

unfoldable pub clear_host_state : String → Store → Store
clear_host_state address [] = []
clear_host_state address (((scope, key), row) ∷ s) =
    let rest = clear_host_state address s in
    if is_of_host address scope key then rest else ((scope, key), row) ∷ rest
