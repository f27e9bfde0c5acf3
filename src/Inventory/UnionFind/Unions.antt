-- ===== src/Inventory/UnionFind/Unions.antt =====
-- What a `find` and a row of `union`s in app/replication_inventory.py do to the roots.
use pve_zfs_tool.Common.{
  ℕ, zero, suc, ◌+◌, ◌≤◌, ◌≡◌, ◌≢◌, ◌∙◌, some, List, [], ◌∷◌, arith, Eq, ◌==◌, if◌then◌else◌,
  length, Bool-cases, inl, inr,
}
use pve_zfs_tool.Common.Dict.{Dict, put, get-nil}
use pve_zfs_tool.Inventory.UnionFind.{parent_of, set_default, find, union, union_all}
use pve_zfs_tool.Inventory.UnionFind.Roots.{
  root_of, Rep, Climbed, root_of-suc, parent_of-put, root_of-set_default, ne_of_beq, climb-Climbed,
}

module _ {K : Type 0} ⦃e : Eq K⦄ where
  set_default-Rep :
      {ρ : K → K} {d : ℕ} {p : Dict K K} (k : K) → Rep ρ d p → Rep ρ d (set_default k p)
  set_default-Rep {ρ} {d} {p} k h = record { at = λ x. root_of-set_default (suc d) x k p ∙ h.at x }

  -- With fuel for the longest path, `find` returns the root of the key and keeps every root.
  pub find-Climbed :
      (fuel : ℕ) {ρ : K → K} {d : ℕ} (k : K) (p : Dict K K)
      → suc d ≤ fuel
      → Rep ρ d p
      → Climbed ρ d (ρ k) (find fuel k p)
  unfolding find
  find-Climbed fuel {ρ} {d} k p le h =
      climb-Climbed (suc d) fuel k (set_default k p) (ρ k) ((set_default-Rep k h).at k) le
        (set_default-Rep k h)

  -- the roots after `union a b`
  abbrev pub merged : (K → K) → K → K → K → K
  merged ρ a b x = if ρ x == ρ a then ρ b else ρ x

  root_of-link :
      (n : ℕ) (x ra rb r : K) (p : Dict K K)
      → parent_of ra p ≡ ra
      → parent_of rb p ≡ rb
      → ra ≢ rb
      → root_of n x p ≡ some r
      → root_of (suc n) x (put ra rb p) ≡ some (if r == ra then rb else r)
  unfolding root_of
  root_of-link zero x ra rb r p ha hb ne h = ground arith
  root_of-link (suc n) x ra rb r p ha hb ne h = ground (
    arith,
    parent_of-put x ra rb p,
    parent_of-put rb ra rb p,
    e.beq_iff ra x,
    e.beq_iff r ra,
    e.beq_iff ra rb,
    e.beq_iff rb rb,
    e.beq_iff rb x,
    e.beq_iff (parent_of x p) x,
    root_of-link n (parent_of x p) ra rb r p ha hb ne,
  )

  -- A root is its own parent.
  top_of : (n : ℕ) (k r : K) (p : Dict K K) → root_of n k p ≡ some r → parent_of r p ≡ r
  unfolding root_of
  top_of zero k r p h = ground arith
  top_of (suc n) k r p h = ground (arith, top_of n (parent_of k p) r p, e.beq_iff (parent_of k p) k)

  link-Rep :
      {ρ : K → K} {d : ℕ} {p : Dict K K} (a b : K)
      → ρ a ≢ ρ b
      → Rep ρ d p
      → Rep (merged ρ a b) (suc d) (put (ρ a) (ρ b) p)
  link-Rep {ρ} {d} {p} a b ne h = record {
    at = λ x.
        root_of-link (suc d) x (ρ a) (ρ b) (ρ x) p (top_of (suc d) a (ρ a) p (h.at a))
          (top_of (suc d) b (ρ b) p (h.at b)) ne (h.at x);
  }

  merged_same : (ρ : K → K) (a b x : K) → ρ a ≡ ρ b → merged ρ a b x ≡ ρ x
  merged_same ρ a b x h = ground (arith, e.beq_iff (ρ x) (ρ a))

  stay-Rep :
      {ρ : K → K} {d : ℕ} {p : Dict K K} (a b : K)
      → ρ a ≡ ρ b
      → Rep ρ d p
      → Rep (merged ρ a b) (suc d) p
  stay-Rep {ρ} {d} {p} a b same h = record {
    at = λ x. rw (merged_same ρ a b x same) (root_of-suc (suc d) x p (ρ x) (h.at x));
  }

  -- With fuel for the longest path, `union` redirects the keys of one root to the other, and
  -- lengthens no path by more than one step.
  pub union-Rep :
      (fuel : ℕ) {ρ : K → K} {d : ℕ} (a b : K) (p : Dict K K)
      → suc d ≤ fuel
      → Rep ρ d p
      → Rep (merged ρ a b) (suc d) (union fuel a b p)
  unfolding union
  union-Rep fuel {ρ} {d} a b p le h =
      let fa = find-Climbed fuel a p le h in
      let fb = find-Climbed fuel b (find fuel a p).1 le fa.rep in
      rw (fa.root, fb.root)
        (elim (Bool-cases (ρ a == ρ b)) [
          | inl same ↦ rw same (stay-Rep a b ((e.beq_iff (ρ a) (ρ b)).0 same) fb.rep)
          | inr other ↦ rw other (link-Rep a b (ne_of_beq (ρ a) (ρ b) other) fb.rep)
        ])

  -- the roots after all the unions
  abbrev pub roots : List (K × K) → (K → K) → K → K
  roots [] ρ = ρ
  roots ((a, b) ∷ es) ρ = roots es (merged ρ a b)

  pub union_all-Rep :
      (fuel : ℕ) (es : List (K × K)) {ρ : K → K} {d : ℕ} (p : Dict K K)
      → d + length es ≤ fuel
      → Rep ρ d p
      → Rep (roots es ρ) (d + length es) (union_all fuel es p)
  unfolding union_all
  union_all-Rep fuel [] {ρ} {d} p le h = let e : d + 0 ≡ d = omega arith in rw e h
  union_all-Rep fuel ((a, b) ∷ es) {ρ} {d} p le h =
      let e : d + suc (length es) ≡ suc d + length es = omega arith in
      rw e (
        union_all-Rep fuel es (union fuel a b p) (omega arith)
          (union-Rep fuel a b p (omega arith) h))

  pub empty-Rep : Rep {K = K} (λ k. k) 0 []
  unfolding root_of parent_of
  empty-Rep = record { at = λ x. ground (arith, get-nil {V = K} x, e.beq_iff x x) }
