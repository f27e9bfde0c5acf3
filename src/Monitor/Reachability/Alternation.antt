-- ===== src/Monitor/Reachability/Alternation.antt =====
-- The offline and recovery messages of app/monitor.py pair up.
use pve_zfs_tool.Common.{
  ℕ, ◌<◌, String, ◌≡◌, refl, ◌∙◌, Bool, true, false, not, ◌&&◌, Option, none, some, List, [], ◌∷◌,
  ◌++◌, arith, if◌then◌else◌, all, ltb,
}
use pve_zfs_tool.Monitor.{up, down, Row, Store, state_get, state_set, is_set}
use pve_zfs_tool.Monitor.Rows.{state_get-set_self}
use pve_zfs_tool.Monitor.Reachability.{
  Host, Note, host_offline, back_online, is_up, is_down, status, check_host_reachability,
  confirm_offline, Round, sample, run,
}

-- Whether an offline message stands unanswered after the messages, if they alternate.
abbrev pub after : Bool → List Note → Option Bool
after open_alert [] = some open_alert
after false (host_offline ∷ ns) = after true ns
after true (back_online ∷ ns) = after false ns
after _ _ = none

abbrev pub pending : Option Row → Bool
pending none = false
pending (some row) = is_down row.value && is_set row.last_alert_ts

-- a row that the check of an unmarked host leaves
abbrev pub is_regular : Option Row → Bool
is_regular none = true
is_regular (some row) =
    if is_down row.value then true else is_up row.value && not (is_set row.last_alert_ts)

abbrev pub row_of : String → Store → Option Row
row_of address s = state_get "host" address s

record Paired (address : String) (s s' : Store) (notes : List Note) : Type 0 where
  regular : is_regular (row_of address s') ≡ true
  paired : after (pending (row_of address s)) notes ≡ some (pending (row_of address s'))

check-Paired :
    (host : Host) (answers : Bool) (now : ℕ) (s : Store)
    → host.standby ≡ false
    → 0 < now
    → is_regular (row_of host.address s) ≡ true
    → Paired host.address s
        (check_host_reachability host answers now s).0
        (check_host_reachability host answers now s).1
unfolding check_host_reachability
check-Paired host answers now s unmarked h reg = ground (
  arith,
  state_get-set_self "host" host.address (status answers) none s,
  state_get-set_self "host" host.address up (some 0) s,
  state_get-set_self "host" host.address down (some now) s,
)

after-append :
    (p q : Bool) (ns ms : List Note) → after p ns ≡ some q → after p (ns ++ ms) ≡ after q ms
after-append p q [] ms h = ground arith
after-append false q (host_offline ∷ ns) ms h = after-append true q ns ms h
after-append true q (back_online ∷ ns) ms h = after-append false q ns ms h
after-append true q (host_offline ∷ ns) ms h = cc
after-append false q (back_online ∷ ns) ms h = cc

module _ (confirm_sec : ℕ) (address : String) where
  sample-Paired :
      (r : Round) (s : Store)
      → r.standby ≡ false
      → 0 < r.now
      → is_regular (row_of address s) ≡ true
      → Paired address s (sample confirm_sec address r s).0 (sample confirm_sec address r s).1
  unfolding sample
  sample-Paired r s unmarked h reg =
      let host : Host = record { address = address; standby = r.standby } in
      check-Paired host (if r.reachable then true else confirm_offline confirm_sec host r.reprobe s)
        r.now s unmarked h reg

  -- the rounds in which the host is not marked as expected offline, after the epoch
  abbrev pub plain : Round → Bool
  plain r = not r.standby && ltb 0 r.now

  run-Paired :
      (rs : List Round) (s : Store)
      → all plain rs ≡ true
      → is_regular (row_of address s) ≡ true
      → Paired address s (run confirm_sec address rs s).0 (run confirm_sec address rs s).1
  unfolding run
  run-Paired [] s h reg = record { regular = reg; paired = refl }
  run-Paired (r ∷ rs) s h reg =
      let step = sample-Paired r s (ground arith) (ground arith) reg in
      let rest = run-Paired rs (sample confirm_sec address r s).0 (ground arith) step.regular in
      record {
        regular = rest.regular;
        paired =
            after-append (pending (row_of address s))
              (pending (row_of address (sample confirm_sec address r s).0))
              (sample confirm_sec address r s).1
              (run confirm_sec address rs (sample confirm_sec address r s).0).1 step.paired
            ∙ rest.paired;
      }

  -- Over any rounds of a host that is never marked as expected offline, first seen in the first
  -- of them, offline and recovery messages alternate, an offline one first; and at the end an
  -- offline message stands unanswered exactly if the stored state is down with an alert time.
  pub messages_alternate :
      (rs : List Round) (s : Store)
      → all plain rs ≡ true
      → row_of address s ≡ none
      → after false (run confirm_sec address rs s).1
        ≡ some (pending (row_of address (run confirm_sec address rs s).0))
  messages_alternate rs s h first = ground (arith, (run-Paired rs s h (ground arith)).paired)

  -- Of a host that is known to be up and not marked as expected offline, a failed probe whose
  -- repetition succeeds sends no message and keeps the row.
  pub blip_silent :
      (r : Round) (s : Store) (row : Row)
      → r.reachable ≡ false
      → r.reprobe ≡ true
      → 0 < confirm_sec
      → r.standby ≡ false
      → row_of address s ≡ some row
      → is_up row.value ≡ true
      → sample confirm_sec address r s ≡ (s, [])
  unfolding sample check_host_reachability confirm_offline
  blip_silent r s row unreachable answers waits unmarked known_row was_up = ground arith

-- Marking a host as expected offline keeps the time of an old alert. After it came up and went
-- down again while marked, its return is announced, though nobody was told of this down phase.
pub marked_phase_announced :
    (confirm_sec : ℕ) (address : String) (s : Store) (t t₁ t₂ t₃ : ℕ)
    → row_of address s ≡ some (record { value = down; last_alert_ts = some t })
    → 0 < t
    → (run confirm_sec address
        (record { reachable = true; reprobe = false; standby = true; now = t₁ }
          ∷ record { reachable = false; reprobe = false; standby = true; now = t₂ }
          ∷ record { reachable = true; reprobe = false; standby = false; now = t₃ }
          ∷ [])
        s).1
      ≡ back_online ∷ []
unfolding run sample check_host_reachability confirm_offline
marked_phase_announced confirm_sec address s t t₁ t₂ t₃ h pos =
    let s₁ = state_set "host" address up none s in
    let s₂ = state_set "host" address down none s₁ in
    ground (
      arith,
      state_get-set_self "host" address up none s,
      state_get-set_self "host" address down none s₁,
    )
