-- ===== src/Cache/Laws.antt =====
-- What the cache of app/cache.py answers, from the history of its calls.
use pve_zfs_tool.Common.{
  ℕ, ◌+◌, ◌≤◌, String, ◌≡◌, refl, Bool, true, false, Option, none, some, List, [], ◌∷◌, arith, leb,
  contains, ◌&&◌, ◌==◌, string_eq, pair_eq, pair_beq_iff, ◌∙◌, if◌then◌else◌, eq_iff, ◌⊎◌, inl,
}
use pve_zfs_tool.Common.Dict.{Dict, get, remove, get-put, get-remove, get-nil}
use pve_zfs_tool.Cache.{
  Key, Cache, look_up, store_result, pop_all, host_keys, invalidate_host, invalidate_all,
  empty_cache,
}

-- a call of the cache and the time of the call
pub data Call (A : Type 0) : Type 0 where
  looked : ℕ → Key → Call A
  stored : ℕ → Key → A → ℕ → Call A
  dropped : ℕ → String → Call A
  cleared : ℕ → Call A

module _ {A : Type 0} where
  abbrev pub time_of : Call A → ℕ
  time_of (looked t k) = t
  time_of (stored t k v ttl) = t
  time_of (dropped t h) = t
  time_of (cleared t) = t

  abbrev pub effect : Call A → Cache A → Cache A
  effect (looked t k) c = (look_up t k c).0
  effect (stored t k v ttl) c = store_result t k v ttl c
  effect (dropped t h) c = invalidate_host h c
  effect (cleared t) c = invalidate_all c

  -- the cache after the calls, newest call first
  abbrev pub after : List (Call A) → Cache A
  after [] = empty_cache
  after (c ∷ past) = effect c (after past)

  -- the clock did not run backwards, up to the time `t`
  abbrev pub Ordered : ℕ → List (Call A) → Type 0
  Ordered t [] = Unit
  Ordered t (c ∷ past) = (time_of c ≤ t) × Ordered (time_of c) past

  -- the newest result stored for the key, unless its host was invalidated since
  abbrev pub newest : Key → List (Call A) → Option (ℕ × A)
  newest k [] = none
  newest k (looked t j ∷ past) = newest k past
  newest k (stored t j v ttl ∷ past) =
      let older = newest k past in
      if leb ttl 0 then older else if j == k then some (t + ttl, v) else older
  newest k (dropped t h ∷ past) = let older = newest k past in if h == k.0 then none else older
  newest k (cleared t ∷ past) = none

  -- an entry that has not expired
  abbrev pub fresh : ℕ → Option (ℕ × A) → Option A
  fresh now none = none
  fresh now (some (expires_at, v)) = if leb expires_at now then none else some v

  get-pop_all :
      (k : Key) (ks : List Key) (m : Dict Key (ℕ × A))
      → get k (pop_all ks m) ≡ (if contains k ks then none else get k m)
  unfolding pop_all
  get-pop_all k [] m = refl
  get-pop_all k (j ∷ ks) m = ground (
    arith,
    get-pop_all k ks (remove j m),
    get-remove k j m,
    pair_beq_iff string_eq string_eq k j,
    pair_beq_iff string_eq string_eq j k,
  )

  abbrev found : Option (ℕ × A) → Bool
  found none = false
  found (some _) = true

  host_keys-contains :
      (k : Key) (h : String) (m : Dict Key (ℕ × A))
      → contains k (host_keys h m) ≡ (h == k.0 && found (get k m))
  unfolding get
  host_keys-contains k h [] = ground arith
  host_keys-contains k h ((j, v) ∷ m) = ground (
    arith,
    host_keys-contains k h m,
    pair_beq_iff string_eq string_eq k j,
    pair_beq_iff string_eq string_eq j k,
    eq_iff h k.0,
    eq_iff j.0 h,
  )

  get-invalidate_host :
      (k : Key) (h : String) (c : Cache A)
      → get k (invalidate_host h c).store ≡ (if h == k.0 then none else get k c.store)
  unfolding invalidate_host
  get-invalidate_host k h c =
      ground (arith, get-pop_all k (host_keys h c.store) c.store, host_keys-contains k h c.store)

  -- an entry that no later lookup answers with
  abbrev lapsed : ℕ → Option (ℕ × A) → Bool
  lapsed t none = true
  lapsed t (some (expires_at, v)) = leb expires_at t

  -- the entry kept, against the newest result: the same, or removed since it expired
  abbrev Agrees : ℕ → (a b : Option (ℕ × A)) → Type 0
  Agrees t a b = (a ≡ b) ⊎ ((a ≡ none) × (lapsed t b ≡ true))

  later-Agrees : (t u : ℕ) (a b : Option (ℕ × A)) → t ≤ u → Agrees t a b → Agrees u a b
  later-Agrees t u a none le h = h
  later-Agrees t u a (some (e, v)) le h = ground arith

  look-Agrees :
      (k j : Key) (c : Cache A) (b : Option (ℕ × A)) (u : ℕ)
      → Agrees u (get k c.store) b
      → Agrees u (get k (look_up u j c).0.store) b
  unfolding look_up
  look-Agrees k j c b u h =
      ground (arith, get-remove k j c.store, pair_beq_iff string_eq string_eq j k)

  effect-Agrees :
      (k : Key) (call : Call A) (c : Cache A) (past : List (Call A)) (t : ℕ)
      → t ≤ time_of call
      → Agrees t (get k c.store) (newest k past)
      → Agrees (time_of call) (get k (effect call c).store) (newest k (call ∷ past))
  unfolding store_result invalidate_all
  effect-Agrees k (looked u j) c past t le h =
      look-Agrees k j c (newest k past) u (later-Agrees t u (get k c.store) (newest k past) le h)
  effect-Agrees k (stored u j v ttl) c past t le h = ground (
    arith,
    get-put k j (u + ttl, v) c.store,
    later-Agrees t u (get k c.store) (newest k past) le h,
  )
  effect-Agrees k (dropped u a) c past t le h =
      ground
        (arith, get-invalidate_host k a c, later-Agrees t u (get k c.store) (newest k past) le h)
  effect-Agrees k (cleared u) c past t le h = inl (get-nil k)

  after-Agrees :
      (k : Key) (t : ℕ) (past : List (Call A))
      → Ordered t past
      → Agrees t (get k (after past).store) (newest k past)
  after-Agrees k t [] h = inl (get-nil k)
  after-Agrees k t (call ∷ past) h =
      later-Agrees (time_of call) t (get k (effect call (after past)).store)
        (newest k (call ∷ past)) h.0
        (effect-Agrees k call (after past) past (time_of call) (omega arith)
          (after-Agrees k (time_of call) past h.1))

  look_up-fresh :
      (now : ℕ) (k : Key) (c : Cache A) → (look_up now k c).1 ≡ fresh now (get k c.store)
  unfolding look_up
  look_up-fresh now k c = ground arith

  fresh-Agrees : (now : ℕ) (a b : Option (ℕ × A)) → Agrees now a b → fresh now a ≡ fresh now b
  fresh-Agrees now a none h = ground arith
  fresh-Agrees now a (some (e, v)) h = ground arith

  -- As long as the clock does not run backwards, a lookup answers with the newest result that was
  -- stored for the host and the command with a positive lifetime, unless that lifetime is over or
  -- the host's entries were invalidated since, and with nothing in those cases.
  pub look_up-newest :
      (now : ℕ) (k : Key) (past : List (Call A))
      → Ordered now past
      → (look_up now k (after past)).1 ≡ fresh now (newest k past)
  look_up-newest now k past h =
      look_up-fresh now k (after past)
      ∙ fresh-Agrees now (get k (after past).store) (newest k past) (after-Agrees k now past h)
