-- ===== src/PoolTopology/RoundTrip.antt =====
-- The tree of a pool, printed as `zpool status` prints it, is read back
-- (app/pool_topology.py).
use mathlib.Core.List.{append-nil, append_assoc}
use pve_zfs_tool.Common.{
  ℕ, String, ◌≡◌, refl, sym, ◌∙◌, ap, Bool, true, false, not, ◌||◌, Option, none, some, List, [],
  ◌∷◌, ◌++◌, map, arith, ◌==◌, string_eq, all, eq_iff, beq_refl,
}
use pve_zfs_tool.Common.Dict.{Dict, get, put, get-put}
use pve_zfs_tool.PoolTopology.{
  Tier, plain, Vdev, Line, pool_line, config_line, errors_line, entry, Parse, start, vdevs_of,
  new_vdev, step_entry, step, steps, parse_topology,
}
use pve_zfs_tool.PoolTopology.Print.{
  Node, vdev_of, same_tier, is_plain, device_line, head_lines, print_vdevs, print_pool, is_shown,
  in_order, both, shown_parts,
}
use pve_zfs_tool.PoolTopology.Lines.{
  at, vdevs_of-put, with_devices, devices_steps, vdevs_of-with_devices, with_vdev, level,
  steps-cons, head_steps, vdev_step,
}

module _ (pool : String) where
  -- the printed vdevs, read: the state before what follows, with the vdevs entered
  record Read (ns : List Node) (lines : List Line) (rest : List Line)
      (pools : Dict String (List Vdev)) (st : Parse) : Type 0 where
    pools' : Dict String (List Vdev)
    tier' : Tier
    known' : Bool
    open' : Bool
    reaches : steps (lines ++ rest) st ≡ steps rest (at pool pools' tier' (level known') open')
    entered : vdevs_of pool pools' ≡ vdevs_of pool pools ++ map vdev_of ns

  lines_assoc :
      (h : List Line) (l : Line) (ds ls rest : List Line)
      → (h ++ l ∷ (ds ++ ls)) ++ rest ≡ h ++ l ∷ (ds ++ (ls ++ rest))
  lines_assoc h l ds ls rest =
      append_assoc h (l ∷ (ds ++ ls)) rest ∙ ap (λ x. h ++ l ∷ x) (append_assoc ds ls rest)

  vdevs_steps :
      (t : Tier) (ns : List Node) (rest : List Line) (pools : Dict String (List Vdev)) (b o : Bool)
      → all is_shown ns ≡ true
      → in_order t ns ≡ true
      → Read ns (print_vdevs t ns) rest pools (at pool pools t (level b) o)
  vdevs_steps t [] rest pools b o h k = record {
    pools' = pools;
    tier' = t;
    known' = b;
    open' = o;
    reaches = refl;
    entered = sym (append-nil (vdevs_of pool pools));
  }
  vdevs_steps t (n ∷ ns) rest pools b o h k =
      let l = entry 2 n.name (some n.state) in
      let ds = map device_line n.below in
      let ls = print_vdevs n.tier ns in
      let after = with_devices pool n.below (with_vdev pool n pools) in
      let shown = both (is_shown n) (all is_shown ns) h in
      let parts = shown_parts n shown.0 in
      let order = both (same_tier t n.tier || not (is_plain n.tier)) (in_order n.tier ns) k in
      let head = head_steps pool t n.tier (l ∷ (ds ++ (ls ++ rest))) pools (level b) o order.0 in
      let read = vdevs_steps n.tier ns rest after true true shown.1 order.1 in
      let below =
        vdevs_of-with_devices pool n.below (with_vdev pool n pools) (vdevs_of pool pools)
          (new_vdev n.tier n.name n.state)
          (vdevs_of-put pool (vdevs_of pool pools ++ new_vdev n.tier n.name n.state ∷ []) pools) in
      record {
        pools' = read.pools';
        tier' = read.tier';
        known' = read.known';
        open' = read.open';
        reaches =
            ap (λ x. steps x (at pool pools t (level b) o))
              (lines_assoc (head_lines t n.tier) l ds ls rest)
            ∙ head.1
            ∙ steps-cons l (ds ++ (ls ++ rest)) (at pool pools n.tier (level b) head.0)
            ∙ ap (steps (ds ++ (ls ++ rest))) (vdev_step pool n pools b head.0 parts.0 parts.1)
            ∙ devices_steps pool n.below (ls ++ rest) (with_vdev pool n pools) n.tier parts.2
            ∙ read.reaches;
        entered =
            read.entered
            ∙ ap (λ x. x ++ map vdev_of ns) below
            ∙ append_assoc (vdevs_of pool pools) (vdev_of n ∷ []) (map vdev_of ns);
      }

  end_steps :
      (pools : Dict String (List Vdev)) (t : Tier) (vi : Option ℕ) (o : Bool)
      → (steps (errors_line ∷ []) (at pool pools t vi o)).pools ≡ pools
  unfolding steps step
  end_steps pools t vi o = refl

  -- the pools once the pool's name is read
  abbrev with_pool : Parse → Dict String (List Vdev)
  with_pool st = elim (get pool st.pools) [ none ↦ put pool [] st.pools | some vs ↦ st.pools ]

  begin_steps :
      (rest : List Line) (st : Parse)
      → (pool == "NAME") ≡ false
      → steps
          (pool_line pool
            ∷ config_line
            ∷ entry 0 "NAME" (some "STATE")
            ∷ entry 0 pool (some "ONLINE")
            ∷ rest)
          st
        ≡ steps rest (at pool (with_pool st) plain none false)
  unfolding steps step step_entry
  begin_steps rest st w = rw (w, beq_refl pool) refl

  vdevs_of-with_pool : (st : Parse) → get pool st.pools ≡ none → vdevs_of pool (with_pool st) ≡ []
  vdevs_of-with_pool st h = ground (arith, get-put pool pool [] st.pools, eq_iff pool pool)

steps-append : (xs ys : List Line) (st : Parse) → steps (xs ++ ys) st ≡ steps ys (steps xs st)
unfolding steps
steps-append [] ys st = refl
steps-append (x ∷ xs) ys st = steps-append xs ys (step x st)

-- Whatever stands before it, the printed tree of a pool that was not seen before is read as the
-- vdevs that were printed, with their tiers, their redundancy and their devices; the data vdevs
-- stand first, no name is that of the column's head, and the states are those of `zpool status`.
pub parse_topology-print_pool :
    (pool : String) (ns : List Node) (before : List Line)
    → (pool == "NAME") ≡ false
    → all is_shown ns ≡ true
    → in_order plain ns ≡ true
    → get pool (parse_topology before) ≡ none
    → vdevs_of pool (parse_topology (before ++ print_pool pool ns)) ≡ map vdev_of ns
unfolding parse_topology
parse_topology-print_pool pool ns before w h k fresh =
    let st = steps before start in
    let read = vdevs_steps pool plain ns (errors_line ∷ []) (with_pool pool st) false false h k in
    ap (λ x. vdevs_of pool x.pools)
      (steps-append before (print_pool pool ns) start
        ∙ begin_steps pool (print_vdevs plain ns ++ errors_line ∷ []) st w
        ∙ read.reaches)
    ∙ ap (vdevs_of pool) (end_steps pool read.pools' read.tier' (level read.known') read.open')
    ∙ read.entered
    ∙ ap (λ x. x ++ map vdev_of ns) (vdevs_of-with_pool pool st fresh)
