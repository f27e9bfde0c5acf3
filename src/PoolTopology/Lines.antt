-- ===== src/PoolTopology/Lines.antt =====
-- What single lines of a printed pool do to the state of `parse_topology` in
-- app/pool_topology.py.
use mathlib.Core.List.{append-nil, append_assoc}
use pve_zfs_tool.Common.{
  ℕ, String, ◌≡◌, refl, sym, ◌∙◌, ap, Bool, true, false, not, ◌||◌, Option, none, some, List, [],
  ◌∷◌, ◌++◌, map, arith, ◌==◌, string_eq, if◌then◌else◌, contains, all, eq_iff, Bool-cases, inl,
  inr,
}
use pve_zfs_tool.Common.Dict.{Dict, put, get-put}
use pve_zfs_tool.Common.Case.{same_ci}
use pve_zfs_tool.PoolTopology.{
  Tier, plain, log, cache, special, dedup, spare, Vdev, Line, entry, tier_of, states, Parse,
  vdevs_of, add_device, new_vdev, place, step_entry, step, steps,
}
use pve_zfs_tool.PoolTopology.Print.{
  Node, same_tier, is_plain, header, device_line, head_lines, is_word, same_tier_eq,
  add_device-last,
}

-- the depth of the vdevs is that of the entries, or not known yet
abbrev pub level : Bool → Option ℕ
level true = some 2
level false = none

pub head_same :
    (b : Bool) (t u : Tier) (l : Line) (rest : List Line) (pools : Dict String (List Vdev))
    → b ≡ true
    → (if b then [] else l ∷ []) ++ rest ≡ rest
head_same b t u l rest pools h = rw h refl

pub head_differs :
    (b : Bool) (l : Line) (rest : List Line)
    → b ≡ false
    → (if b then [] else l ∷ []) ++ rest ≡ l ∷ rest
head_differs b l rest h = rw h refl

pub steps-cons :
    (l : Line) (rest : List Line) (st : Parse) → steps (l ∷ rest) st ≡ steps rest (step l st)
unfolding steps
steps-cons l rest st = refl

module _ (pool : String) where
  -- the state below the pool's own line
  abbrev pub at : Dict String (List Vdev) → Tier → Option ℕ → Bool → Parse
  at pools t vi o = record {
    pools = pools;
    pool = some pool;
    in_config = true;
    tier = t;
    pool_indent = some 0;
    vdev_indent = vi;
    is_open = o;
  }

  abbrev pub with_device : String → Dict String (List Vdev) → Dict String (List Vdev)
  with_device d pools = put pool (add_device d (vdevs_of pool pools)) pools

  pub device_step :
      (d : String) (pools : Dict String (List Vdev)) (t : Tier)
      → is_word d ≡ true
      → step (device_line d) (at pools t (some 2) true) ≡ at (with_device d pools) t (some 2) true
  unfolding step step_entry place
  device_step d pools t h = ground arith

  pub vdevs_of-put :
      (vs : List Vdev) (pools : Dict String (List Vdev)) → vdevs_of pool (put pool vs pools) ≡ vs
  vdevs_of-put vs pools = ground (arith, get-put pool pool vs pools, eq_iff pool pool)

  -- the pools after the lines of the devices
  abbrev pub with_devices : List String → Dict String (List Vdev) → Dict String (List Vdev)
  with_devices [] pools = pools
  with_devices (d ∷ ds) pools = with_devices ds (with_device d pools)

  pub devices_steps :
      (ds : List String) (rest : List Line) (pools : Dict String (List Vdev)) (t : Tier)
      → all is_word ds ≡ true
      → steps (map device_line ds ++ rest) (at pools t (some 2) true)
        ≡ steps rest (at (with_devices ds pools) t (some 2) true)
  unfolding steps
  devices_steps [] rest pools t h = refl
  devices_steps (d ∷ ds) rest pools t h =
      ap (steps (map device_line ds ++ rest)) (device_step d pools t (ground arith))
      ∙ devices_steps ds rest (with_device d pools) t (ground arith)

  pub vdevs_of-with_devices :
      (ds : List String) (pools : Dict String (List Vdev)) (xs : List Vdev) (w : Vdev)
      → vdevs_of pool pools ≡ xs ++ w ∷ []
      → vdevs_of pool (with_devices ds pools) ≡ xs ++ record w { devices = w.devices ++ ds } ∷ []
  vdevs_of-with_devices [] pools xs w h =
      h ∙ ap (λ l. xs ++ record w { devices = l } ∷ []) (sym (append-nil w.devices))
  vdevs_of-with_devices (d ∷ ds) pools xs w h =
      vdevs_of-with_devices ds (with_device d pools) xs (record w { devices = w.devices ++ d ∷ [] })
        (vdevs_of-put (add_device d (vdevs_of pool pools)) pools
          ∙ ap (add_device d) h
          ∙ add_device-last d xs w)
      ∙ ap (λ l. xs ++ record w { devices = l } ∷ []) (append_assoc w.devices (d ∷ []) ds)

  abbrev pub with_vdev : Node → Dict String (List Vdev) → Dict String (List Vdev)
  with_vdev n pools = put pool (vdevs_of pool pools ++ new_vdev n.tier n.name n.state ∷ []) pools

  pub step-header :
      (t u : Tier) (pools : Dict String (List Vdev)) (vi : Option ℕ) (o : Bool)
      → is_plain u ≡ false
      → step (entry 2 (header u) none) (at pools t vi o) ≡ at pools u vi false
  unfolding step step_entry tier_of same_ci
  step-header t plain pools vi o h = cc
  step-header t log pools vi o h = refl
  step-header t cache pools vi o h = refl
  step-header t special pools vi o h = refl
  step-header t dedup pools vi o h = refl
  step-header t spare pools vi o h = refl

  -- what the rest makes of the state does not hang on `is_open` where a vdev follows
  pub head_steps :
      (t u : Tier) (rest : List Line) (pools : Dict String (List Vdev)) (vi : Option ℕ) (o : Bool)
      → (same_tier t u || not (is_plain u)) ≡ true
      → (o' : Bool) × (steps (head_lines t u ++ rest) (at pools t vi o)
          ≡ steps rest (at pools u vi o'))
  head_steps t u rest pools vi o h = elim (Bool-cases (same_tier t u)) [
    | inl same ↦ (
      o,
      ap (λ ls. steps ls (at pools t vi o))
            (head_same (same_tier t u) t u (entry 2 (header u) none) rest pools same)
          ∙ ap (λ x. steps rest (at pools x vi o)) (same_tier_eq t u same),
    )
    | inr differs ↦ (
      false,
      ap (λ ls. steps ls (at pools t vi o))
            (head_differs (same_tier t u) (entry 2 (header u) none) rest differs)
          ∙ steps-cons (entry 2 (header u) none) rest (at pools t vi o)
          ∙ ap (steps rest) (step-header t u pools vi o (ground arith)),
    )
  ]

  pub vdev_step :
      (n : Node) (pools : Dict String (List Vdev)) (b o : Bool)
      → (n.name == "NAME") ≡ false
      → contains n.state states ≡ true
      → step (entry 2 n.name (some n.state)) (at pools n.tier (level b) o)
        ≡ at (with_vdev n pools) n.tier (some 2) true
  unfolding step step_entry place
  vdev_step n pools true o w s = rw (w, s) refl
  vdev_step n pools false o w s = rw (w, s) refl
