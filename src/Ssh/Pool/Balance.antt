-- ===== src/Ssh/Pool/Balance.antt =====
-- The connections of app/ssh_manager.py: what is opened, used and closed.
use pve_zfs_tool.Common.{
  ℕ, suc, ◌+◌, ◌≤◌, String, ◌≡◌, refl, Bool, true, ◌&&◌, Option, none, some, List, [], ◌∷◌, arith,
  nat_beq, nat_eq, string_eq, pair_eq, ltb, if◌then◌else◌,
}
use pve_zfs_tool.Common.Dict.{get}
use pve_zfs_tool.Ssh.{Key}
use pve_zfs_tool.Ssh.Pool.{
  Entry, Call, connected, executed, closed, World, call, new_client, open_new, unpooled, retouched,
  empty_world,
}
use pve_zfs_tool.Ssh.Pool.Held.{
  held, Unique, held-put_new, held-put_same, held-remove, put-Unique, remove-Unique, held-get,
}

abbrev same : ℕ → ℕ → ℕ
same d c = if nat_beq d c then 1 else 0

-- how often client `c` was connected
abbrev pub opened : ℕ → List Call → ℕ
opened c [] = 0
opened c (connected d ∷ past) = same d c + opened c past
opened c (executed d ∷ past) = opened c past
opened c (closed d ∷ past) = opened c past

-- how often client `c` was closed
abbrev pub shut : ℕ → List Call → ℕ
shut c [] = 0
shut c (connected d ∷ past) = shut c past
shut c (executed d ∷ past) = shut c past
shut c (closed d ∷ past) = same d c + shut c past

-- a client is connected once, and used and closed only while it is open
abbrev pub orderly : List Call → Bool
orderly [] = true
orderly (connected d ∷ past) = nat_beq (opened d past) 0 && orderly past
orderly (executed d ∷ past) = nat_beq (opened d past) (suc (shut d past)) && orderly past
orderly (closed d ∷ past) = nat_beq (opened d past) (suc (shut d past)) && orderly past

-- every open client stands in the pool once, and the clients are numbered as they connect
abbrev Counted : ℕ → World → Type 0
Counted c w =
    (opened c w.calls ≡ shut c w.calls + held c w.pool)
    × (opened c w.calls ≡ (if ltb c w.made then 1 else 0))

abbrev pub Balanced : World → Type 0
Balanced w = Unique w.pool × (orderly w.calls ≡ true) × ((c : ℕ) → Counted c w)

pub empty_world-Balanced : Balanced empty_world
empty_world-Balanced = (tt, refl, λ c. ground arith)

pub open_new-Balanced :
    (err : Option String) (now : ℕ) (key : Key) (w : World)
    → get key w.pool ≡ none
    → Balanced w
    → Balanced (open_new err now key w).0
unfolding open_new
open_new-Balanced (some e) now key w h b = b
open_new-Balanced none now key w h b =
    let e : Entry = record { client = w.made; last = now } in
    (
      put-Unique key e w.pool b.0,
      ground (arith, b.2 w.made, b.1),
      λ c. ground (arith, b.2 c, held-put_new c key e w.pool h),
    )

pub unpooled-Balanced :
    (key : Key) (e : Entry) (w : World)
    → get key w.pool ≡ some e
    → Balanced w
    → Balanced (unpooled key e.client w)
unpooled-Balanced key e w h b = (
  remove-Unique key w.pool b.0,
  ground (arith, b.1, b.2 e.client, held-get key e w.pool h),
  λ c. ground (arith, b.2 c, held-remove c key e w.pool b.0 h),
)

pub retouched-Balanced :
    (now : ℕ) (key : Key) (e : Entry) (w : World)
    → get key w.pool ≡ some e
    → Balanced w
    → Balanced (retouched now key e w)
retouched-Balanced now key e w h b = (
  put-Unique key (record e { last = now }) w.pool b.0,
  b.1,
  λ c. ground (arith, b.2 c, held-put_same c key e (record e { last = now }) w.pool h refl),
)

pub executed-Balanced :
    (client : ℕ) (w : World)
    → 1 ≤ held client w.pool
    → Balanced w
    → Balanced (call (executed client) w)
executed-Balanced client w h b = (b.0, ground (arith, b.1, b.2 client), b.2)

pub direct-Balanced :
    (w : World)
    → Balanced w
    → Balanced (call (closed w.made) (call (executed w.made) (new_client w)))
direct-Balanced w b = (b.0, ground (arith, b.1, b.2 w.made), λ c. ground (arith, b.2 c, b.2 w.made))
