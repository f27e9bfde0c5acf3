-- ===== src/Monitor/Health/Removal.antt =====
-- What `clear_vanished_pool_state` of app/monitor.py leaves.
use pve_zfs_tool.Common.{
  String, ◌≡◌, Bool, true, not, ◌&&◌, none, some, List, [], ◌∷◌, arith, ◌==◌, string_eq, pair_eq,
  eq_iff, if◌then◌else◌, contains, any, filter, Option-cases, inl, inr,
}
use pve_zfs_tool.Common.Dict.{get, get-remove}
use pve_zfs_tool.Common.Scan.{like_prefix, drop_as}
use pve_zfs_tool.Monitor.{Value, Row, Store, pool_key, state_get, state_delete}
use pve_zfs_tool.Monitor.Health.{
  state_keys, drop_keys, drop_scopes, pool_scopes, clear_vanished_pool_state,
}

module _ (key_prefix : String) (current : List String) where
  -- a key that the pattern matches and whose rest is no current pool
  abbrev pub is_vanished : String → Bool
  is_vanished key = like_prefix key_prefix key && not (contains (drop_as key_prefix key) current)

  abbrev lists : String → List (String × Value) → Bool
  lists key ks = any (λ k. k.0 == key) ks

  get-drop_keys :
      (scope sc key : String) (ks : List (String × Value)) (s : Store)
      → state_get sc key (drop_keys scope key_prefix current ks s).0 ≡ (
          if (scope == sc) && lists key ks && not (contains (drop_as key_prefix key) current)
          then none
          else state_get sc key s)
  unfolding drop_keys state_delete state_get
  get-drop_keys scope sc key [] s = ground arith
  get-drop_keys scope sc key ((k, v) ∷ ks) s = ground (
    arith,
    get-drop_keys scope sc key ks s,
    get-drop_keys scope sc key ks (state_delete scope k s),
    get-remove (sc, key) (scope, k) s,
    eq_iff k key,
  )

  lists-like :
      (scope key : String) (s : Store)
      → lists key (state_keys scope key_prefix s) ≡ true
      → like_prefix key_prefix key ≡ true
  unfolding state_keys
  lists-like scope key [] h = ground arith
  lists-like scope key (((sc, k), row) ∷ s) h = ground (arith, lists-like scope key s, eq_iff k key)

  lists-found :
      (scope key : String) (row : Row) (s : Store)
      → state_get scope key s ≡ some row
      → like_prefix key_prefix key ≡ true
      → lists key (state_keys scope key_prefix s) ≡ true
  unfolding state_keys state_get get
  lists-found scope key row [] h l = ground arith
  lists-found scope key row (((sc, k), r) ∷ s) h l =
      ground (arith, lists-found scope key row s, eq_iff k key, eq_iff key key)

  get-drop_scope :
      (scope sc key : String) (s : Store)
      → state_get sc key (drop_keys scope key_prefix current (state_keys scope key_prefix s) s).0
        ≡ (if (scope == sc) && is_vanished key then none else state_get sc key s)
  get-drop_scope scope sc key s = elim (Option-cases (state_get sc key s)) [
    | inl missing ↦ ground (arith, get-drop_keys scope sc key (state_keys scope key_prefix s) s)
    | inr (row, found) ↦ ground (
      arith,
      get-drop_keys scope sc key (state_keys scope key_prefix s) s,
      lists-like scope key s,
      lists-found scope key row s,
      eq_iff scope sc,
    )
  ]

  get-drop_scopes :
      (scopes : List String) (sc key : String) (s : Store)
      → state_get sc key (drop_scopes scopes key_prefix current s).0
        ≡ (if contains sc scopes && is_vanished key then none else state_get sc key s)
  unfolding drop_scopes
  get-drop_scopes [] sc key s = ground arith
  get-drop_scopes (scope ∷ scopes) sc key s = ground (
    arith,
    get-drop_scopes scopes sc key
        (drop_keys scope key_prefix current (state_keys scope key_prefix s) s).0,
    get-drop_scope scope sc key s,
    eq_iff scope sc,
    eq_iff sc scope,
  )

-- Clearing after a pool listing removes, in the four scopes of pools, exactly the rows whose key
-- matches the address and a colon as a LIKE pattern and whose rest is no listed pool; all other
-- rows stay.
pub get-clear_vanished_pool_state :
    (address : String) (names : List String) (sc key : String) (s : Store)
    → state_get sc key (clear_vanished_pool_state address names s).0 ≡ (
        if contains sc pool_scopes
          && is_vanished (pool_key address "") (filter (λ n. not (n == "")) names) key
        then none
        else state_get sc key s)
unfolding clear_vanished_pool_state
get-clear_vanished_pool_state address names sc key s =
    get-drop_scopes (pool_key address "") (filter (λ n. not (n == "")) names) pool_scopes sc key s
