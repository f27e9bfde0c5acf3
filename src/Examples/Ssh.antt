-- ===== src/Examples/Ssh.antt =====
-- Commands over SSH, the cache before them and a rotation of the keys (app/ssh_manager.py and
-- app/cache.py).
use pve_zfs_tool.Common.{
  ℕ, ◌+◌, ◌≤◌, ◌≡◌, ◌≢◌, refl, String, true, false, none, some, List, [], ◌∷◌, arith, eq_iff,
  string_eq, pair_eq, nat_eq,
}
use pve_zfs_tool.Common.Dict.{get}
use pve_zfs_tool.Cache.{Key, look_up}
use pve_zfs_tool.Cache.Laws.{
  Call, looked, stored, dropped, after as cache_after, newest, fresh, look_up-newest,
}
use pve_zfs_tool.Ssh.{Host, host_key}
use pve_zfs_tool.Ssh.Pool.{Attempt, World, exited, broken, timed_out}
use pve_zfs_tool.Ssh.Pool.Balance.{opened, shut, orderly}
use pve_zfs_tool.Ssh.Pool.Held.{held}
use pve_zfs_tool.Ssh.Pool.Uses.{Use, executes, executes_direct, discards, after, no_leak}
use pve_zfs_tool.Ssh.Rotation.{Site, applied, unreported, rotate_ssh_keys, Outside as Rotating}
use pve_zfs_tool.Ssh.Rotation.Laws.{ends, accepts}
use pve_zfs_tool.Ssh.Rotation.Lockout.{Reached, no_lockout}

abbrev pools : Key
pools = ("10.0.0.1", "zpool list")

abbrev past : List (Call ℕ)
past =
    looked 30 pools
    ∷ stored 20 pools 7 60
    ∷ dropped 15 "10.0.0.2"
    ∷ stored 10 ("10.0.0.2", "zpool list") 5 60
    ∷ []

look_up-newest_example : (look_up 40 pools (cache_after past)).1 ≡ fresh 40 (newest pools past)
look_up-newest_example =
    look_up-newest 40 pools past (omega arith, (omega arith, (omega arith, (omega arith, tt))))

abbrev works : Attempt
works = record {
  now = 100;
  active = λ c. true;
  connect_error = none;
  outcome = exited 0 "ok" "";
  touched = 101;
}

abbrev dies : Attempt
dies = record works { now = 130; outcome = broken "socket is closed" }

abbrev slow : Attempt
slow = record works { now = 150; outcome = timed_out "30" }

abbrev node : Host
node = record { address = "10.0.0.1"; port = none; user = none; password = none }

abbrev uses : List Use
uses =
    discards "10.0.0.1" false
    ∷ executes_direct works
    ∷ executes dies slow (host_key node)
    ∷ executes works works (host_key node)
    ∷ []

no_leak_example :
    (orderly (after uses).calls ≡ true)
    × (opened 0 (after uses).calls ≡ shut 0 (after uses).calls + held 0 (after uses).pool)
    × (opened 0 (after uses).calls ≤ 1)
no_leak_example = no_leak uses 0

abbrev connected_world : World
connected_world = after (executes works works (host_key node) ∷ [])

abbrev rotating : Rotating
rotating = record {
  generated = some "new";
  deploy = λ h. applied;
  withdraw = λ h. applied;
  reachable = λ h. true;
  clean = λ h. unreported;
  swap_fails = none;
}

abbrev site : Site
site = record {
  files = record {
    key = some "old";
    key_old = none;
    key_new = none;
    pub_key = some "old";
    pub_old = none;
    pub_new = none;
  };
  authorized =
      ("10.0.0.1", record { lines = "old" ∷ []; ended = false })
      ∷ ("10.0.0.2", record { lines = "other" ∷ "old" ∷ []; ended = true })
      ∷ [];
}

differ : ◌≢◌ {A = String} "new" "old"
differ h = ground (arith, eq_iff "new" "old")

ends_line : ends "10.0.0.2" site.authorized ≡ true
unfolding get
ends_line = refl

lets_in : accepts "old" "10.0.0.2" site.authorized ≡ true
unfolding get
lets_in = refl

no_lockout_example :
    Reached rotating "old" "new" "10.0.0.2"
      (rotate_ssh_keys rotating ("10.0.0.1" ∷ "10.0.0.2" ∷ []) site)
no_lockout_example =
    no_lockout rotating "old" "new" "10.0.0.2" ("10.0.0.1" ∷ "10.0.0.2" ∷ []) site refl differ refl
      refl refl ends_line lets_in
