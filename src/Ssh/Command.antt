-- ===== src/Ssh/Command.antt =====
-- `run_command` of app/ssh_manager.py: the cache of app/cache.py before the pool of connections.
pub mod Laws
use pve_zfs_tool.Common.{
  ℕ, String, Bool, true, false, ◌&&◌, Option, none, some, List, [], ◌∷◌, ltb, if◌then◌else◌,
}
use pve_zfs_tool.Cache.{Cache, look_up, store_result, empty_cache}
use pve_zfs_tool.Ssh.{Host, Result, host_key, has_password}
use pve_zfs_tool.Ssh.Pool.{Attempt, World, exec_pooled, exec_direct, empty_world}

-- the state of the two modules
pub record State : Type 0 where
  pub cache : Cache Result
  pub ssh : World

-- what one command meets: its attempts, and the time at which its result is stored
pub record Outside : Type 0 where
  pub first : Attempt
  pub second : Attempt
  pub looked_up : ℕ
  pub stored : ℕ

-- from `result = _exec_pooled(...)` on
abbrev pub keep_result :
    Outside → Host → String → ℕ → Cache Result → World × Result → State × Result
keep_result o host command cache_ttl c (w, result) = (
  record {
    cache =
        (if ltb 0 cache_ttl && result.success
          then store_result o.stored (host.address, command) result cache_ttl c
          else c);
    ssh = w;
  },
  result,
)

abbrev pub run_uncached : Outside → Host → String → ℕ → Cache Result → World → State × Result
run_uncached o host command cache_ttl c w =
    keep_result o host command cache_ttl c (exec_pooled o.first o.second (host_key host) w)

-- the answer of the cache, or a run
abbrev pub after_lookup :
    Cache Result × Option Result → Outside → Host → String → ℕ → World → State × Result
after_lookup (c, some cached) o host command cache_ttl w = (record { cache = c; ssh = w }, cached)
after_lookup (c, none) o host command cache_ttl w = run_uncached o host command cache_ttl c w

abbrev pub direct : World × Result → Cache Result → State × Result
direct (w, r) c = (record { cache = c; ssh = w }, r)

unfoldable pub run_command : Outside → Host → String → ℕ → State → State × Result
run_command o host command cache_ttl s =
    if has_password host
    then direct (exec_direct o.first s.ssh) s.cache
    else if ltb 0 cache_ttl
    then after_lookup (look_up o.looked_up (host.address, command) s.cache) o host command cache_ttl
        s.ssh
    else run_uncached o host command cache_ttl s.cache s.ssh

-- a command asked for
pub record Request : Type 0 where
  pub outside : Outside
  pub host : Host
  pub command : String
  pub cache_ttl : ℕ

-- the state after the commands, newest first
abbrev pub after : List Request → State
after [] = record { cache = empty_cache; ssh = empty_world }
after (r ∷ rs) = (run_command r.outside r.host r.command r.cache_ttl (after rs)).0
