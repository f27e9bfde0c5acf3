-- ===== src/Inventory/UnionFind/Roots.antt =====
-- What `find` and `union` do to the root of each key, and the fuel that they need.
use pve_zfs_tool.Common.{
  ℕ, zero, suc, ◌≤◌, ◌≡◌, ◌≢◌, refl, sym, true, false, Option, none, some, arith, Eq, ◌==◌,
  if◌then◌else◌, Bool-cases, inl, inr,
}
use pve_zfs_tool.Common.Dict.{Dict, put, get-put}
use pve_zfs_tool.Inventory.UnionFind.{parent_of, set_default, climb}

module _ {K : Type 0} ⦃e : Eq K⦄ where
  -- the root of `k`, if fewer than `n` steps lead to it
  unfoldable pub root_of : ℕ → K → Dict K K → Option K
  root_of zero k p = none
  root_of (suc n) k p = elim (parent_of k p == k) [
    | true ↦ some k
    | false ↦ root_of n (parent_of k p) p
  ]

  pub root_of-suc :
      (n : ℕ) (k : K) (p : Dict K K) (r : K) → root_of n k p ≡ some r → root_of (suc n) k p ≡ some r
  unfolding root_of
  root_of-suc zero k p r h = ground arith
  root_of-suc (suc n) k p r h = ground (arith, root_of-suc n (parent_of k p) p r)

  -- Two keys that are each other's parent have no root.
  no_root :
      (n : ℕ) (k j : K) (p : Dict K K)
      → parent_of k p ≡ j
      → parent_of j p ≡ k
      → j ≢ k
      → root_of n k p ≡ none
  unfolding root_of
  no_root zero k j p h g ne = refl
  no_root (suc n) k j p h g ne =
      ground (arith, no_root n j k p g h (λ x. ne (sym x)), e.beq_iff j k)

  abbrev halved : K → Dict K K → Dict K K
  halved k p = put k (parent_of (parent_of k p) p) p

  pub parent_of-put :
      (x k v : K) (p : Dict K K) → parent_of x (put k v p) ≡ (if k == x then v else parent_of x p)
  unfolding parent_of
  parent_of-put x k v p = ground (arith, get-put x k v p)

  -- Halving a path moves no root and lengthens no path.
  root_of-halved :
      (n : ℕ) (x k r : K) (p : Dict K K)
      → parent_of k p ≢ k
      → root_of n x p ≡ some r
      → root_of n x (halved k p) ≡ some r
  unfolding root_of
  root_of-halved zero x k r p ne h = ground arith
  root_of-halved (suc zero) x k r p ne h = ground (
    arith,
    parent_of-put x k (parent_of (parent_of k p) p) p,
    e.beq_iff k x,
    e.beq_iff (parent_of x p) x,
  )
  root_of-halved (suc (suc n)) x k r p ne h =
      let j = parent_of k p in
      let g = parent_of j p in
      ground (
        arith,
        parent_of-put x k g p,
        e.beq_iff k x,
        e.beq_iff g x,
        e.beq_iff (parent_of x p) x,
        e.beq_iff g j,
        root_of-halved (suc n) (parent_of x p) k r p ne,
        root_of-halved n g k r p ne,
        root_of-halved (suc n) g k r p ne,
        root_of-suc n g (halved k p) r,
        no_root (suc (suc n)) k j p refl,
      )

  parent_of-set_default : (x k : K) (p : Dict K K) → parent_of x (set_default k p) ≡ parent_of x p
  unfolding parent_of set_default
  parent_of-set_default x k p = ground (arith, get-put x k k p, e.beq_iff k x)

  pub root_of-set_default :
      (n : ℕ) (x k : K) (p : Dict K K) → root_of n x (set_default k p) ≡ root_of n x p
  unfolding root_of
  root_of-set_default zero x k p = refl
  root_of-set_default (suc n) x k p =
      ground (arith, parent_of-set_default x k p, root_of-set_default n (parent_of x p) k p)

  -- Every key has the root that `ρ` tells, on a path of at most `d` steps.
  pub record Rep (ρ : K → K) (d : ℕ) (p : Dict K K) : Type 0 where
    pub at : (x : K) → root_of (suc d) x p ≡ some (ρ x)

  halved-Rep :
      {ρ : K → K} {d : ℕ} {p : Dict K K} (k : K)
      → parent_of k p ≢ k
      → Rep ρ d p
      → Rep ρ d (halved k p)
  halved-Rep {ρ} {d} {p} k ne h = record {
    at = λ x. root_of-halved (suc d) x k (ρ x) p ne (h.at x);
  }

  root_of-parent :
      (n : ℕ) (k : K) (p : Dict K K) (r : K)
      → root_of n k p ≡ some r
      → root_of n (parent_of k p) p ≡ some r
  unfolding root_of
  root_of-parent zero k p r h = ground arith
  root_of-parent (suc n) k p r h =
      ground (arith, root_of-suc n (parent_of k p) p r, e.beq_iff (parent_of k p) k)

  climb_step :
      (n : ℕ) (k : K) (p : Dict K K) (r : K)
      → parent_of k p ≢ k
      → root_of (suc n) k p ≡ some r
      → root_of n (parent_of k (halved k p)) (halved k p) ≡ some r
  unfolding root_of
  climb_step n k p r ne h =
      let g = parent_of (parent_of k p) p in
      ground (
        arith,
        parent_of-put k k g p,
        e.beq_iff k k,
        e.beq_iff (parent_of k p) k,
        root_of-parent n (parent_of k p) p r,
        root_of-halved n g k r p ne,
      )

  pub record Climbed (ρ : K → K) (d : ℕ) (r : K) (result : K × Dict K K) : Type 0 where
    pub root : result.0 ≡ r
    pub rep : Rep ρ d result.1

  pub ne_of_beq : (a b : K) → (a == b) ≡ false → a ≢ b
  ne_of_beq a b h = ground (arith, e.beq_iff a b)

  -- With fuel for the path of `k`, `climb` returns its root and keeps every root.
  pub climb-Climbed :
      (n fuel : ℕ) {ρ : K → K} {d : ℕ} (k : K) (p : Dict K K) (r : K)
      → root_of n k p ≡ some r
      → n ≤ fuel
      → Rep ρ d p
      → Climbed ρ d r (climb fuel k p)
  unfolding climb
  climb-Climbed zero fuel k p r h le rep = absurd (unfold root_of in cc)
  climb-Climbed (suc n) zero k p r h le rep = absurd (omega arith)
  climb-Climbed (suc n) (suc fuel) {ρ} {d} k p r h le rep = elim (Bool-cases (parent_of k p == k)) [
    | inl top ↦ rw (top, climb) (record { root = unfold root_of in ground arith; rep = rep })
    | inr below ↦
        let ne = ne_of_beq (parent_of k p) k below in
        rw (below, climb)
          (climb-Climbed n fuel (parent_of k (halved k p)) (halved k p) r (climb_step n k p r ne h)
            (omega arith) (halved-Rep k ne rep))
  ]
