-- ===== src/Ssh/Command/Laws.antt =====
-- What `run_command` of app/ssh_manager.py keeps in the cache, and when it leaves SSH alone.
use pve_zfs_tool.Common.{
  ℕ, ◌+◌, String, ◌≡◌, Bool, true, false, Option, none, some, List, [], ◌∷◌, arith, ap, ◌∙◌, ltb,
  leb, ◌<◌, beq_refl, nat_eq, string_eq, pair_eq, if◌then◌else◌,
}
use pve_zfs_tool.Common.Dict.{get, get-put, get-remove, get-nil}
use pve_zfs_tool.Cache.{Key, Cache, look_up, store_result}
use pve_zfs_tool.Ssh.{Host, Result, host_key, has_password}
use pve_zfs_tool.Ssh.Pool.{World, exec_pooled, exec_direct}
use pve_zfs_tool.Ssh.Command.{
  State, Outside, Request, keep_result, run_uncached, after_lookup, direct, run_command, after,
}

-- an entry of the cache holds the result of a command that succeeded
abbrev pub ok_entry : Option (ℕ × Result) → Bool
ok_entry none = true
ok_entry (some (expires_at, r)) = r.success

look_up-ok :
    (now : ℕ) (j k : Key) (c : Cache Result)
    → ok_entry (get k c.store) ≡ true
    → ok_entry (get k (look_up now j c).0.store) ≡ true
unfolding look_up
look_up-ok now j k c h = ground (arith, get-remove k j c.store)

store_result-ok :
    (now : ℕ) (j k : Key) (r : Result) (ttl : ℕ) (c : Cache Result)
    → r.success ≡ true
    → ok_entry (get k c.store) ≡ true
    → ok_entry (get k (store_result now j r ttl c).store) ≡ true
unfolding store_result
store_result-ok now j k r ttl c g h = ground (arith, get-put k j (now + ttl, r) c.store)

keep_result-ok :
    (o : Outside) (host : Host) (command : String) (ttl : ℕ) (c : Cache Result) (k : Key)
    (got : World × Result)
    → ok_entry (get k c.store) ≡ true
    → ok_entry (get k (keep_result o host command ttl c got).0.cache.store) ≡ true
keep_result-ok o host command ttl c k (w, r) h =
    ground (arith, store_result-ok o.stored (host.address, command) k r ttl c)

abbrev Keeps : Key → State × Result → Type 0
Keeps k (s, r) = ok_entry (get k s.cache.store) ≡ true

either-Keeps :
    (t : Bool) (k : Key) (x y : State × Result)
    → Keeps k x
    → Keeps k y
    → Keeps k (if t then x else y)
either-Keeps true k x y h g = h
either-Keeps false k x y h g = g

after_lookup-Keeps :
    (found : Cache Result × Option Result) (o : Outside) (host : Host) (command : String) (ttl : ℕ)
    (w : World) (k : Key)
    → ok_entry (get k found.0.store) ≡ true
    → Keeps k (after_lookup found o host command ttl w)
after_lookup-Keeps (c, some cached) o host command ttl w k h = h
after_lookup-Keeps (c, none) o host command ttl w k h =
    keep_result-ok o host command ttl c k (exec_pooled o.first o.second (host_key host) w) h

run_command-Keeps :
    (o : Outside) (host : Host) (command : String) (ttl : ℕ) (s : State) (k : Key)
    → ok_entry (get k s.cache.store) ≡ true
    → Keeps k (run_command o host command ttl s)
unfolding run_command
run_command-Keeps o host command ttl s k h =
    let looked = look_up o.looked_up (host.address, command) s.cache in
    let uncached = run_uncached o host command ttl s.cache s.ssh in
    let cached = after_lookup looked o host command ttl s.ssh in
    either-Keeps (has_password host) k (direct (exec_direct o.first s.ssh) s.cache)
      (if ltb 0 ttl then cached else uncached) h
      (either-Keeps (ltb 0 ttl) k cached uncached
        (after_lookup-Keeps looked o host command ttl s.ssh k
          (look_up-ok o.looked_up (host.address, command) k s.cache h))
        (keep_result-ok o host command ttl s.cache k
          (exec_pooled o.first o.second (host_key host) s.ssh) h))

after-ok : (rs : List Request) (k : Key) → ok_entry (get k (after rs).cache.store) ≡ true
after-ok [] k = ap ok_entry (get-nil k)
after-ok (r ∷ rs) k =
    run_command-Keeps r.outside r.host r.command r.cache_ttl (after rs) k (after-ok rs k)

-- Whatever commands were run before, the cache answers only with results of commands that
-- succeeded: one that failed is run again.
pub cached-success :
    (rs : List Request) (now : ℕ) (k : Key) (r : Result)
    → (look_up now k (after rs).cache).1 ≡ some r
    → r.success ≡ true
unfolding look_up
cached-success rs now k r h = ground (arith, after-ok rs k)

look_up-fresh_hit :
    (now t : ℕ) (k : Key) (r : Result) (ttl : ℕ) (c : Cache Result)
    → leb ttl 0 ≡ false
    → now < t + ttl
    → (look_up now k (store_result t k r ttl c)).1 ≡ some r
unfolding look_up store_result
look_up-fresh_hit now t k r ttl c p h = ground (arith, get-put k k (t + ttl, r) c.store, beq_refl k)

-- what the cache answers is returned, and SSH is left alone
hit :
    (o : Outside) (host : Host) (command : String) (ttl : ℕ) (s : State) (r : Result)
    → has_password host ≡ false
    → 0 < ttl
    → (look_up o.looked_up (host.address, command) s.cache).1 ≡ some r
    → ((run_command o host command ttl s).1 ≡ r)
      × ((run_command o host command ttl s).0.ssh ≡ s.ssh)
unfolding run_command
hit o host command ttl s r p t h = ground arith

-- what a run returns is kept if it is a success
miss :
    (o : Outside) (host : Host) (command : String) (ttl : ℕ) (s : State)
    → has_password host ≡ false
    → 0 < ttl
    → (look_up o.looked_up (host.address, command) s.cache).1 ≡ none
    → (run_command o host command ttl s).1.success ≡ true
    → (run_command o host command ttl s).0.cache
      ≡ store_result o.stored
          (host.address, command)
          (run_command o host command ttl s).1
          ttl
          (look_up o.looked_up (host.address, command) s.cache).0
unfolding run_command
miss o host command ttl s p t h k = ground arith

-- A command that the cache does not know and that succeeds, asked for again within its lifetime,
-- returns the same result without any use of SSH, whatever SSH would do then.
pub repeated_from_cache :
    (o o' : Outside) (host : Host) (command : String) (ttl : ℕ) (s : State)
    → has_password host ≡ false
    → 0 < ttl
    → (look_up o.looked_up (host.address, command) s.cache).1 ≡ none
    → (run_command o host command ttl s).1.success ≡ true
    → o'.looked_up < o.stored + ttl
    → (let again = run_command o' host command ttl (run_command o host command ttl s).0 in
        (again.1 ≡ (run_command o host command ttl s).1)
        × (again.0.ssh ≡ (run_command o host command ttl s).0.ssh))
repeated_from_cache o o' host command ttl s p t h k l =
    let k1 : Key = (host.address, command) in
    let ran = run_command o host command ttl s in
    hit o' host command ttl ran.0 ran.1 p t (
      ap (λ c. (look_up o'.looked_up k1 c).1) (miss o host command ttl s p t h k)
      ∙ look_up-fresh_hit o'.looked_up o.stored k1 ran.1 ttl (look_up o.looked_up k1 s.cache).0
          (ground arith) l)
