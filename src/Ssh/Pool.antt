-- ===== src/Ssh/Pool.antt =====
-- `_run_once`, the pool of connections and `_exec_pooled` of app/ssh_manager.py, and
-- `_exec_direct` beside them. Clients have numbers, in the order in which they connect, and `calls`
-- lists what the SSH library is asked to do with them, newest first. One thread's pool is modelled.
pub mod Balance
pub mod Held
pub mod Uses
pub mod Retry
use pve_zfs_tool.Common.{
  ℕ, suc, ◌-◌, String, Bool, true, false, not, ◌⊎◌, inl, inr, Option, none, some, List, [], ◌∷◌,
  nat_beq, ltb, ◌==◌, nat_eq, string_eq, pair_eq, if◌then◌else◌, filter,
}
use pve_zfs_tool.Common.Dict.{Dict, keys, get, put, remove}
use Prim.Native.String.{◌++◌}
use pve_zfs_tool.Ssh.{Key, Result, failure}

abbrev pub ssh_conn_idle_ttl : ℕ
ssh_conn_idle_ttl = 120

pub record Entry : Type 0 where
  pub client : ℕ
  pub last : ℕ

pub data Call : Type 0 where
  connected executed closed : ℕ → Call

-- `_tls.ssh_pool`, the number of clients so far, and the calls
pub record World : Type 0 where
  pub pool : Dict Key Entry
  pub made : ℕ
  pub calls : List Call

-- what `exec_command` and the reads of its streams come to
pub data Outcome : Type 0 where
  exited : ℕ → String → String → Outcome
  timed_out : String → Outcome  -- `socket.timeout`, after so many seconds
  broken : String → Outcome  -- `EOFError`, `SSHException` and the errors of the socket
  other : String → Outcome  -- any other exception

-- what `_run_once` does: it returns, raises `_StaleConnection`, or raises something else
pub data Ran : Type 0 where
  done : Result → Ran
  stale raised : String → Ran

unfoldable pub run_once : Outcome → Ran
run_once (exited code out err) =
    done (record { success = nat_beq code 0; stdout = out; stderr = err })
run_once (timed_out seconds) = done (failure ("command timed out after " ++ seconds ++ "s"))
run_once (broken e) = stale e
run_once (other e) = raised e

-- what one attempt meets: the time, the live transports, the error of a new connection, the
-- outcome of the command, and the time of `_touch`
pub record Attempt : Type 0 where
  pub now : ℕ
  pub active : ℕ → Bool
  pub connect_error : Option String
  pub outcome : Outcome
  pub touched : ℕ

abbrev pub call : Call → World → World
call c w = record w { calls = c ∷ w.calls }

unfoldable pub conn_reusable : Attempt → Entry → Bool
conn_reusable a e = if ltb ssh_conn_idle_ttl (a.now - e.last) then false else a.active e.client

-- `get_ssh_client`, once it returns
abbrev pub new_client : World → World
new_client w = record w { made = suc w.made; calls = connected w.made ∷ w.calls }

-- a new connection into the pool
abbrev pub pooled : ℕ → Key → World → World
pooled now key w = record (new_client w) {
  pool = put key (record { client = w.made; last = now }) w.pool;
}

-- the end of `_acquire`, by the error of the connection; the left value is the error it raises
unfoldable pub open_new : Option String → ℕ → Key → World → World × (String ⊎ (ℕ × Bool))
open_new (some e) now key w = (w, inl e)
open_new none now key w = (pooled now key w, inr (w.made, false))

-- a client closed and out of the pool
abbrev pub unpooled : Key → ℕ → World → World
unpooled key client w = record w { pool = remove key w.pool; calls = closed client ∷ w.calls }

abbrev pub drop_found : Option Entry → Key → World → World
drop_found none key w = w
drop_found (some e) key w = unpooled key e.client w

-- `_drop`
unfoldable pub drop : Key → World → World
drop key w = drop_found (get key w.pool) key w

-- an entry used last at the given time
abbrev pub retouched : ℕ → Key → Entry → World → World
retouched now key e w = record w { pool = put key (record e { last = now }) w.pool }

abbrev pub touch_found : Option Entry → ℕ → Key → World → World
touch_found none now key w = w
touch_found (some e) now key w = retouched now key e w

-- `_touch`
unfoldable pub touch : ℕ → Key → World → World
touch now key w = touch_found (get key w.pool) now key w

-- what `_acquire` gives: the error it raises, or the client and whether it was reused
abbrev pub Acquired : Type 0
Acquired = World × (String ⊎ (ℕ × Bool))

abbrev pub acquire_found : Option Entry → Attempt → Key → World → Acquired
acquire_found none a key w = open_new a.connect_error a.now key w
acquire_found (some e) a key w =
    if conn_reusable a e
    then (w, inr (e.client, true))
    else open_new a.connect_error a.now key (unpooled key e.client w)

unfoldable pub acquire : Attempt → Key → World → Acquired
acquire a key w = acquire_found (get key w.pool) a key w

-- the second attempt, by what the command comes to
abbrev pub settle_again : Ran → ℕ → Key → World → World × Result
settle_again (done r) touched key w = (touch touched key w, r)
settle_again (stale e) touched key w = (drop key w, failure e)
settle_again (raised e) touched key w = (w, failure e)

abbrev pub run_again : Acquired → Attempt → Key → World × Result
run_again (w, inl e) b key = (w, failure e)
run_again (w, inr (client, reused)) b key =
    settle_again (run_once b.outcome) b.touched key (call (executed client) w)

unfoldable pub attempt_again : Attempt → Key → World → World × Result
attempt_again b key w = run_again (acquire b key w) b key

-- the first attempt, by what the command comes to
abbrev pub settle : Ran → Bool → (a b : Attempt) → Key → World → World × Result
settle (done r) reused a b key w = (touch a.touched key w, r)
settle (raised e) reused a b key w = (drop key w, failure e)
settle (stale e) reused a b key w =
    let again = attempt_again b key (drop key w) in
    if not reused then (drop key w, failure e) else again

abbrev pub run_first : Acquired → (a b : Attempt) → Key → World × Result
run_first (w, inl e) a b key = (w, failure e)
run_first (w, inr (client, reused)) a b key =
    settle (run_once a.outcome) reused a b key (call (executed client) w)

-- `_exec_pooled` with the pool enabled; `b` is what a second attempt meets
unfoldable pub exec_pooled : (a b : Attempt) → Key → World → World × Result
exec_pooled a b key w = run_first (acquire a key w) a b key

abbrev pub result_of : Ran → Result
result_of (done r) = r
result_of (stale e) = failure e
result_of (raised e) = failure e

abbrev pub run_direct : Option String → Outcome → World → World × Result
run_direct (some e) outcome w = (w, failure e)
run_direct none outcome w =
    (call (closed w.made) (call (executed w.made) (new_client w)), result_of (run_once outcome))

-- `_exec_direct`, and `_exec_pooled` with the pool switched off: the client is closed at the end
unfoldable pub exec_direct : Attempt → World → World × Result
exec_direct a w = run_direct a.connect_error a.outcome w

-- `for key in [k for k in pool if k[0] == address]: _close_quiet(pool.pop(key)["client"])`
unfoldable pub drop_all : List Key → World → World
drop_all [] w = w
drop_all (key ∷ ks) w = drop_all ks (drop key w)

-- the pool's part of `discard_unregistered`; `registered` is whether `hosts.json` has the address
unfoldable pub discard : String → Bool → World → World
discard address registered w =
    if registered then w else drop_all (filter (λ k. k.0.0 == address) (keys w.pool)) w

abbrev pub empty_world : World
empty_world = record { pool = []; made = 0; calls = [] }
