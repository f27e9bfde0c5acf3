-- ===== src/Monitor/Health/Messages.antt =====
-- The messages of `check_pool_health` of app/monitor.py over many rounds.
use pve_zfs_tool.Common.{
  ℕ, String, ◌≡◌, refl, Bool, Option-cases, inl, inr, false, ◌&&◌, ◌||◌, contains, Option, none,
  some, List, [], ◌∷◌, ◌++◌, arith, ◌==◌, string_eq, if◌then◌else◌,
}
use pve_zfs_tool.Monitor.{Value, Row, Store, pool_key, state_get, state_set}
use pve_zfs_tool.Monitor.Rows.{state_get-set_self}
use pve_zfs_tool.Monitor.Health.{
  PoolNote, turned_bad, recovered, bad_health, is_bad, is_text, health_note, check_one_health,
}

-- a health that calls for help, told apart from the list in the code
abbrev pub is_failed : String → Bool
is_failed h =
    (h == "DEGRADED")
    || (h == "FAULTED")
    || (h == "UNAVAIL")
    || (h == "REMOVED")
    || (h == "SUSPENDED")

abbrev pub had_failed : Value → Bool
had_failed v = elim v [ Value.text u ↦ is_failed u | _ ↦ false ]

contains-bad_health : (h : String) → contains h bad_health ≡ is_failed h
contains-bad_health h = ground arith

is_bad-had_failed : (v : Value) → is_bad v ≡ had_failed v
is_bad-had_failed (Value.text u) = contains-bad_health u
is_bad-had_failed v = refl

-- what a change of the health calls for
unfoldable pub called_note : String → Value → String → List PoolNote
called_note pool prev h =
    if is_failed h
    then turned_bad pool ∷ []
    else if had_failed prev && (h == "ONLINE")
    then recovered pool ∷ []
    else []

health_note-called_note :
    (pool : String) (prev : Value) (h : String) → health_note pool prev h ≡ called_note pool prev h
unfolding health_note called_note
health_note-called_note pool prev h = rw (contains-bad_health h, is_bad-had_failed prev) refl

module _ (address pool : String) where
  abbrev pub health_row : Store → Option Row
  health_row s = state_get "pool_health" (pool_key address pool) s

  -- the rounds with their times and the pool's health in each
  unfoldable pub rounds : List (ℕ × String) → Store → Store × List PoolNote
  rounds [] s = (s, [])
  rounds ((now, h) ∷ hs) s =
      let (s', a) = check_one_health address now (record { name = pool; health = h }) s in
      let (s'', more) = rounds hs s' in (s'', a ++ more)

  -- the messages that a history of healths calls for, from the health before it
  abbrev pub announced : Option Value → List (ℕ × String) → List PoolNote
  announced prev [] = []
  announced none ((now, h) ∷ hs) =
      if h == "" then announced none hs else announced (some (Value.text h)) hs
  announced (some prev) ((now, h) ∷ hs) =
      let same = announced (some prev) hs in
      let changed = announced (some (Value.text h)) hs in
      if (h == "") || is_text h prev then same else called_note pool prev h ++ changed

  abbrev pub value_of : Option Row → Option Value
  value_of none = none
  value_of (some row) = some row.value

  -- The messages of all rounds are those that the history of healths calls for: none for the first
  -- health of a pool or for one that stays, one for each change to DEGRADED, FAULTED, UNAVAIL,
  -- REMOVED or SUSPENDED, and one that it has recovered for each change from one of these to
  -- ONLINE.
  pub rounds-announced :
      (hs : List (ℕ × String)) (s : Store)
      → (pool == "") ≡ false
      → (rounds hs s).1 ≡ announced (value_of (health_row s)) hs
  unfolding rounds check_one_health
  rounds-announced [] s named = ground arith
  rounds-announced ((now, h) ∷ hs) s named =
      let key = pool_key address pool in
      elim (Option-cases (health_row s)) [
        | inl e ↦ ground (
          arith,
          rounds-announced hs s named,
          rounds-announced hs (state_set "pool_health" key (Value.text h) none s) named,
          state_get-set_self "pool_health" key (Value.text h) none s,
        )
        | inr (row, e) ↦ ground (
          arith,
          rounds-announced hs s named,
          rounds-announced hs (state_set "pool_health" key (Value.text h) (some now) s) named,
          state_get-set_self "pool_health" key (Value.text h) (some now) s,
          health_note-called_note pool row.value h,
        )
      ]
