-- ===== src/Ssh/Pool/Uses.antt =====
-- The uses of the connections of app/ssh_manager.py, one after the other.
use pve_zfs_tool.Common.{
  ℕ, ◌+◌, ◌≤◌, String, ◌≡◌, refl, Bool, true, false, Option, none, some, inl, inr, List, [], ◌∷◌,
  arith, beq_refl, nat_eq, string_eq, pair_eq, if◌then◌else◌, filter, ◌==◌,
}
use pve_zfs_tool.Common.Dict.{get, get-remove, keys}
use pve_zfs_tool.Ssh.{Key}
use pve_zfs_tool.Ssh.Pool.{
  Entry, executed, World, Outcome, Attempt, Ran, done, stale, raised, run_once, settle_again,
  run_again, settle, run_first, run_direct, call, conn_reusable, open_new, drop_found, drop,
  unpooled, touch_found, touch, Acquired, acquire_found, acquire, attempt_again, exec_pooled,
  exec_direct, drop_all, discard, empty_world,
}
use pve_zfs_tool.Ssh.Pool.Held.{held, held-put_new, held-get}
use pve_zfs_tool.Ssh.Pool.Balance.{
  opened, shut, orderly, Balanced, empty_world-Balanced, open_new-Balanced, unpooled-Balanced,
  retouched-Balanced, executed-Balanced, direct-Balanced,
}

drop_found-Balanced :
    (o : Option Entry) (key : Key) (w : World)
    → get key w.pool ≡ o
    → Balanced w
    → Balanced (drop_found o key w)
drop_found-Balanced none key w h b = b
drop_found-Balanced (some e) key w h b = unpooled-Balanced key e w h b

drop-Balanced : (key : Key) (w : World) → Balanced w → Balanced (drop key w)
unfolding drop
drop-Balanced key w b = drop_found-Balanced (get key w.pool) key w refl b

touch_found-Balanced :
    (o : Option Entry) (now : ℕ) (key : Key) (w : World)
    → get key w.pool ≡ o
    → Balanced w
    → Balanced (touch_found o now key w)
touch_found-Balanced none now key w h b = b
touch_found-Balanced (some e) now key w h b = retouched-Balanced now key e w h b

touch-Balanced : (now : ℕ) (key : Key) (w : World) → Balanced w → Balanced (touch now key w)
unfolding touch
touch-Balanced now key w b = touch_found-Balanced (get key w.pool) now key w refl b

-- a client that `_acquire` gives stands in the pool
abbrev Holding : Acquired → Type 0
Holding (w, inl e) = Balanced w
Holding (w, inr (client, reused)) = (1 ≤ held client w.pool) × Balanced w

open_new-held :
    (err : Option String) (now : ℕ) (key : Key) (w : World)
    → get key w.pool ≡ none
    → Balanced w
    → Holding (open_new err now key w)
unfolding open_new
open_new-held (some e) now key w h b = b
open_new-held none now key w h b = (
  ground (arith, held-put_new w.made key (record { client = w.made; last = now }) w.pool h),
  open_new-Balanced none now key w h b,
)

either-Holding : (t : Bool) (x y : Acquired) → Holding x → Holding y → Holding (if t then x else y)
either-Holding true x y h k = h
either-Holding false x y h k = k

acquire_found-Holding :
    (o : Option Entry) (a : Attempt) (key : Key) (w : World)
    → get key w.pool ≡ o
    → Balanced w
    → Holding (acquire_found o a key w)
acquire_found-Holding none a key w h b = open_new-held a.connect_error a.now key w h b
acquire_found-Holding (some e) a key w h b =
    either-Holding (conn_reusable a e) (w, inr (e.client, true))
      (open_new a.connect_error a.now key (unpooled key e.client w)) (held-get key e w.pool h, b)
      (open_new-held a.connect_error a.now key (unpooled key e.client w)
        (ground (arith, get-remove key key w.pool, beq_refl key)) (unpooled-Balanced key e w h b))

acquire-Holding : (a : Attempt) (key : Key) (w : World) → Balanced w → Holding (acquire a key w)
unfolding acquire
acquire-Holding a key w b = acquire_found-Holding (get key w.pool) a key w refl b

settle_again-Balanced :
    (r : Ran) (touched : ℕ) (key : Key) (w : World)
    → Balanced w
    → Balanced (settle_again r touched key w).0
settle_again-Balanced (done r) touched key w b = touch-Balanced touched key w b
settle_again-Balanced (stale e) touched key w b = drop-Balanced key w b
settle_again-Balanced (raised e) touched key w b = b

run_again-Balanced :
    (got : Acquired) (b : Attempt) (key : Key) → Holding got → Balanced (run_again got b key).0
run_again-Balanced (w, inl e) b key h = h
run_again-Balanced (w, inr (client, reused)) b key h =
    settle_again-Balanced (run_once b.outcome) b.touched key (call (executed client) w)
      (executed-Balanced client w h.0 h.1)

attempt_again-Balanced :
    (b : Attempt) (key : Key) (w : World) → Balanced w → Balanced (attempt_again b key w).0
unfolding attempt_again
attempt_again-Balanced b key w h =
    run_again-Balanced (acquire b key w) b key (acquire-Holding b key w h)

settle-Balanced :
    (r : Ran) (reused : Bool) (a b : Attempt) (key : Key) (w : World)
    → Balanced w
    → Balanced (settle r reused a b key w).0
settle-Balanced (done r) reused a b key w h = touch-Balanced a.touched key w h
settle-Balanced (raised e) reused a b key w h = drop-Balanced key w h
settle-Balanced (stale e) true a b key w h =
    attempt_again-Balanced b key (drop key w) (drop-Balanced key w h)
settle-Balanced (stale e) false a b key w h = drop-Balanced key w h

run_first-Balanced :
    (got : Acquired) (a b : Attempt) (key : Key) → Holding got → Balanced (run_first got a b key).0
run_first-Balanced (w, inl e) a b key h = h
run_first-Balanced (w, inr (client, reused)) a b key h =
    settle-Balanced (run_once a.outcome) reused a b key (call (executed client) w)
      (executed-Balanced client w h.0 h.1)

run_direct-Balanced :
    (err : Option String) (o : Outcome) (w : World) → Balanced w → Balanced (run_direct err o w).0
run_direct-Balanced (some e) o w b = b
run_direct-Balanced none o w b = direct-Balanced w b

drop_all-Balanced : (ks : List Key) (w : World) → Balanced w → Balanced (drop_all ks w)
unfolding drop_all
drop_all-Balanced [] w b = b
drop_all-Balanced (k ∷ ks) w b = drop_all-Balanced ks (drop k w) (drop-Balanced k w b)

-- one use of the connections
pub data Use : Type 0 where
  executes : (a b : Attempt) → Key → Use
  executes_direct : Attempt → Use
  drops : Key → Use
  discards : String → Bool → Use

abbrev pub use_once : Use → World → World
use_once (executes a b key) w = (exec_pooled a b key w).0
use_once (executes_direct a) w = (exec_direct a w).0
use_once (drops key) w = drop key w
use_once (discards address registered) w = discard address registered w

use_once-Balanced : (u : Use) (w : World) → Balanced w → Balanced (use_once u w)
unfolding exec_pooled exec_direct discard
use_once-Balanced (executes a b key) w h =
    run_first-Balanced (acquire a key w) a b key (acquire-Holding a key w h)
use_once-Balanced (executes_direct a) w h = run_direct-Balanced a.connect_error a.outcome w h
use_once-Balanced (drops key) w h = drop-Balanced key w h
use_once-Balanced (discards address true) w h = h
use_once-Balanced (discards address false) w h =
    drop_all-Balanced (filter (λ k. k.0.0 == address) (keys w.pool)) w h

-- the world after the uses, newest use first
abbrev pub after : List Use → World
after [] = empty_world
after (u ∷ us) = use_once u (after us)

after-Balanced : (us : List Use) → Balanced (after us)
after-Balanced [] = empty_world-Balanced
after-Balanced (u ∷ us) = use_once-Balanced u (after us) (after-Balanced us)

-- Whatever commands are run, with whatever errors, and whatever connections are dropped or
-- discarded: no client is connected twice, used or closed while it is not open, and each one was
-- connected as often as it was closed, and once more exactly while the pool holds it. So no
-- connection leaks and none is closed twice.
pub no_leak :
    (us : List Use) (c : ℕ)
    → (orderly (after us).calls ≡ true)
      × (opened c (after us).calls ≡ shut c (after us).calls + held c (after us).pool)
      × (opened c (after us).calls ≤ 1)
no_leak us c = ground (arith, (after-Balanced us).1, (after-Balanced us).2 c)
