-- ===== src/Inventory/UnionFind.antt =====
-- `find`, `union` and the grouping of `group_lineages` in app/replication_inventory.py, over any
-- type of keys. The dict `parent` is passed on. A key that it lacks is its own parent, which is
-- what `setdefault` makes of it; the values of `parent` are roots that `find` returned, so that
-- `parent[parent[k]]` never misses. Fuel bounds the `while`.
pub mod Connected
pub mod Roots
pub mod Unions
use pve_zfs_tool.Common.{
  ℕ, zero, suc, Bool, true, false, Option, none, some, List, [], ◌∷◌, ◌++◌, Eq, ◌==◌, if◌then◌else◌,
}
use pve_zfs_tool.Common.Dict.{Dict, get, put}

module _ {K : Type 0} ⦃e : Eq K⦄ where
  unfoldable pub parent_of : K → Dict K K → K
  parent_of k parent = elim (get k parent) [ none ↦ k | some j ↦ j ]

  -- `parent.setdefault(k, k)`
  unfoldable pub set_default : K → Dict K K → Dict K K
  set_default k parent = elim (get k parent) [ none ↦ put k k parent | some j ↦ parent ]

  -- the `while` of `find`, with path halving
  unfoldable pub climb : ℕ → K → Dict K K → K × Dict K K
  climb zero k parent = (k, parent)
  climb (suc fuel) k parent = elim (parent_of k parent == k) [
    | true ↦ (k, parent)
    | false ↦
        let parent' = put k (parent_of (parent_of k parent) parent) parent in
        climb fuel (parent_of k parent') parent'
  ]

  unfoldable pub find : ℕ → K → Dict K K → K × Dict K K
  unfolding set_default
  find fuel k parent = climb fuel k (set_default k parent)

  unfoldable pub union : ℕ → K → K → Dict K K → Dict K K
  union fuel a b parent =
      let (ra, p) = find fuel a parent in
      let (rb, q) = find fuel b p in if ra == rb then q else put ra rb q

  -- the `find` of each key on its own, which enters it into `parent`
  unfoldable pub find_all : ℕ → List K → Dict K K → Dict K K
  find_all fuel [] parent = parent
  find_all fuel (k ∷ ks) parent = find_all fuel ks (find fuel k parent).1

  unfoldable pub union_all : ℕ → List (K × K) → Dict K K → Dict K K
  union_all fuel [] parent = parent
  union_all fuel ((a, b) ∷ es) parent = union_all fuel es (union fuel a b parent)

  -- `grouped.setdefault(root, []).append(key)`
  unfoldable pub append_at : {V : Type 0} → K → V → Dict K (List V) → Dict K (List V)
  append_at root key grouped = elim (get root grouped) [
    | none ↦ put root (key ∷ []) grouped
    | some ks ↦ put root (ks ++ key ∷ []) grouped
  ]

  unfoldable pub group : ℕ → List K → Dict K K → Dict K (List K) → Dict K (List K)
  group fuel [] parent grouped = grouped
  group fuel (k ∷ ks) parent grouped =
      let (root, p) = find fuel k parent in group fuel ks p (append_at root k grouped)
