-- ===== src/Cache.antt =====
-- app/cache.py: the results of SSH commands, kept for a time. The clock is an argument of each
-- operation, in whole units of time; the hit rate, a float, is left out of the counters.
pub mod Laws
use pve_zfs_tool.Common.{
  ℕ, suc, ◌+◌, String, Bool, Option, none, some, List, [], ◌∷◌, leb, ltb, ◌==◌, string_eq, pair_eq,
  if◌then◌else◌, length, filter, count_if, map,
}
use pve_zfs_tool.Common.Dict.{Dict, keys, get, remove, put}

-- the address of the host and the command
abbrev pub Key : Type 0
Key = String × String

pub record Stats : Type 0 where
  pub hits : ℕ
  pub misses : ℕ
  pub writes : ℕ
  pub invalidations : ℕ

-- `_store`, with the time at which each entry expires, and `_stats`
pub record Cache (A : Type 0) : Type 0 where
  pub store : Dict Key (ℕ × A)
  pub stats : Stats

abbrev pub count_dropped : ℕ → Stats → Stats
count_dropped n s = record s { invalidations = s.invalidations + n }

module _ {A : Type 0} where
  abbrev pub count_hit : Cache A → Cache A
  count_hit c = record c { stats = record c.stats { hits = suc c.stats.hits } }

  abbrev pub count_miss : Cache A → Cache A
  count_miss c = record c { stats = record c.stats { misses = suc c.stats.misses } }

  -- `get`
  unfoldable pub look_up : ℕ → Key → Cache A → Cache A × Option A
  look_up now k c = elim (get k c.store) [
    | none ↦ (count_miss c, none)
    | some (expires_at, result) ↦
        if leb expires_at now
        then (count_miss (record c { store = remove k c.store }), none)
        else (count_hit c, some result)
  ]

  -- `set`
  unfoldable pub store_result : ℕ → Key → A → ℕ → Cache A → Cache A
  store_result now k result ttl c = if leb ttl 0 then c else record c {
    store = put k (now + ttl, result) c.store;
    stats = record c.stats { writes = suc c.stats.writes };
  }

  -- `for k in keys: _store.pop(k, None)`
  unfoldable pub pop_all : List Key → Dict Key (ℕ × A) → Dict Key (ℕ × A)
  pop_all [] m = m
  pop_all (k ∷ ks) m = pop_all ks (remove k m)

  abbrev pub host_keys : String → Dict Key (ℕ × A) → List Key
  host_keys host m = filter (λ k. k.0 == host) (keys m)

  unfoldable pub invalidate_host : String → Cache A → Cache A
  unfolding pop_all
  invalidate_host host c = record c {
    store = pop_all (host_keys host c.store) c.store;
    stats = count_dropped (length (host_keys host c.store)) c.stats;
  }

  unfoldable pub invalidate_all : Cache A → Cache A
  invalidate_all c = record c { store = []; stats = count_dropped (length c.store) c.stats }

  abbrev pub empty_cache : Cache A
  empty_cache = record {
    store = [];
    stats = record { hits = 0; misses = 0; writes = 0; invalidations = 0 };
  }
