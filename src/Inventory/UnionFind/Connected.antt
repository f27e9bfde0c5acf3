-- ===== src/Inventory/UnionFind/Connected.antt =====
-- Two keys have the same root exactly if the unions connect them.
use mathlib.Core.List.{Memᴰ, append-nil, append_assoc}
use mathlib.Core.Path.{subst}
use pve_zfs_tool.Common.{
  ℕ, suc, ◌+◌, ◌≤◌, ◌≡◌, refl, sym, ap, filter, none, some, ◌++◌, ◌∙◌, ◌↔◌, Bool, true, false, List,
  [], ◌∷◌, arith, Eq, ◌==◌, if◌then◌else◌, length, Bool-cases, inl, inr,
}
use pve_zfs_tool.Common.Dict.{Dict, get, get-put}
use pve_zfs_tool.Inventory.UnionFind.{find, find_all, union_all, append_at, group}
use pve_zfs_tool.Inventory.UnionFind.Roots.{Rep}
use pve_zfs_tool.Inventory.UnionFind.Unions.{merged, roots, find-Climbed, union_all-Rep, empty-Rep}

-- the equivalence that the pairs generate
pub data Connected {K : Type 0} (es : List (K × K)) : K → K → Type 0 where
  same : {a : K} → Connected es a a
  joined : {a b : K} → Memᴰ (a, b) es → Connected es a b
  back : {a b : K} → Connected es a b → Connected es b a
  through : {a b c : K} → Connected es a b → Connected es b c → Connected es a c

module _ {K : Type 0} ⦃e : Eq K⦄ where
  -- What has one root keeps one root.
  roots_keep : (es : List (K × K)) (ρ : K → K) (a b : K) → ρ a ≡ ρ b → roots es ρ a ≡ roots es ρ b
  roots_keep [] ρ a b h = h
  roots_keep ((c, d) ∷ es) ρ a b h =
      roots_keep es (merged ρ c d) a b (ap (λ r. if r == ρ c then ρ d else r) h)

  merged_joins : (ρ : K → K) (a b : K) → merged ρ a b a ≡ merged ρ a b b
  merged_joins ρ a b = ground (arith, e.beq_iff (ρ a) (ρ a), e.beq_iff (ρ b) (ρ a))

  joined-roots :
      (es : List (K × K)) (ρ : K → K) (a b : K) → Memᴰ (a, b) es → roots es ρ a ≡ roots es ρ b
  joined-roots [] ρ a b m = elim m [ ]
  joined-roots ((c, d) ∷ es) ρ a b (Memᴰ.head h) = roots_keep es (merged ρ c d) a b (
      ap (λ x. merged ρ c d x) (ap (λ p. p.0) h)
      ∙ merged_joins ρ c d
      ∙ ap (λ x. merged ρ c d x) (sym (ap (λ p. p.1) h)))
  joined-roots ((c, d) ∷ es) ρ a b (Memᴰ.tail m) = joined-roots es (merged ρ c d) a b m

  Connected-roots :
      (es : List (K × K)) (ρ : K → K) {a b : K} → Connected es a b → roots es ρ a ≡ roots es ρ b
  Connected-roots es ρ same = refl
  Connected-roots es ρ (joined {a} {b} m) = joined-roots es ρ a b m
  Connected-roots es ρ (back c) = sym (Connected-roots es ρ c)
  Connected-roots es ρ (through c d) = Connected-roots es ρ c ∙ Connected-roots es ρ d

  merged-Connected :
      (all : List (K × K)) (ρ : K → K) (a b : K)
      → Connected all a b
      → ((x : K) → Connected all x (ρ x))
      → (x : K) → Connected all x (merged ρ a b x)
  merged-Connected all ρ a b c h x = elim (Bool-cases (ρ x == ρ a)) [
    | inl hit ↦
        let same_root : ρ x ≡ ρ a = (e.beq_iff (ρ x) (ρ a)).0 hit in
        rw hit (
          through (h x) (
            through (subst (λ r. Connected all r a) (sym same_root) (back (h a)))
              (through c (h b))))
    | inr miss ↦ rw miss (h x)
  ]

  -- A root is connected to its keys.
  roots-Connected :
      (all es : List (K × K)) (ρ : K → K)
      → ((p : K × K) → Memᴰ p es → Memᴰ p all)
      → ((x : K) → Connected all x (ρ x))
      → (x : K) → Connected all x (roots es ρ x)
  roots-Connected all [] ρ sub h x = h x
  roots-Connected all ((a, b) ∷ es) ρ sub h x =
      roots-Connected all es (merged ρ a b) (λ p m. sub p (Memᴰ.tail m))
        (merged-Connected all ρ a b (joined (sub (a, b) (Memᴰ.head refl))) h) x

  abbrev pub root : List (K × K) → K → K
  root es = roots es (λ k. k)

  -- Two keys have the same root exactly if the pairs connect them.
  pub root-eq_iff : (es : List (K × K)) (a b : K) → (root es a ≡ root es b) ↔ Connected es a b
  root-eq_iff es a b = (
    λ h.
        let to_root : (x : K) → Connected es x (root es x) =
          roots-Connected es es (λ k. k) (λ p m. m) (λ x. same) in
        through (to_root a) (subst (λ r. Connected es r b) (sym h) (back (to_root b))),
    Connected-roots es (λ k. k),
  )

  find_all-Rep :
      (fuel : ℕ) (ks : List K) {ρ : K → K} {d : ℕ} (p : Dict K K)
      → suc d ≤ fuel
      → Rep ρ d p
      → Rep ρ d (find_all fuel ks p)
  unfolding find_all
  find_all-Rep fuel [] p le h = h
  find_all-Rep fuel (k ∷ ks) p le h =
      find_all-Rep fuel ks (find fuel k p).1 le (find-Climbed fuel k p le h).rep

  -- the keys filed under a root
  abbrev pub members : {V : Type 0} → K → Dict K (List V) → List V
  members r grouped = elim (get r grouped) [ none ↦ [] | some ks ↦ ks ]

  pub members-nil : {V : Type 0} (r : K) → members {V = V} r [] ≡ []
  unfolding get
  members-nil r = refl

  pub members-append_at :
      {V : Type 0} (r root : K) (key : V) (g : Dict K (List V))
      → members r (append_at root key g)
        ≡ (if root == r then members r g ++ key ∷ [] else members r g)
  unfolding append_at
  members-append_at r root key g = ground (
    arith,
    get-put r root (key ∷ []) g,
    get-put r root (members root g ++ key ∷ []) g,
    e.beq_iff root r,
  )

  filed :
      (b : Bool) (before later : List K) (k : K)
      → (if b then before ++ k ∷ [] else before) ++ later
        ≡ before ++ (if b then k ∷ later else later)
  filed true before later k = append_assoc before (k ∷ []) later
  filed false before later k = refl

  members-group :
      (fuel : ℕ) (ks : List K) {ρ : K → K} {d : ℕ} (p : Dict K K) (g : Dict K (List K)) (r : K)
      → suc d ≤ fuel
      → Rep ρ d p
      → members r (group fuel ks p g) ≡ members r g ++ filter (λ k. ρ k == r) ks
  unfolding group
  members-group fuel [] p g r le h = sym (append-nil (members r g))
  members-group fuel (k ∷ ks) {ρ} {d} p g r le h =
      let found = find-Climbed fuel k p le h in
      let later = filter (λ x. ρ x == r) ks in
      members-group fuel ks (find fuel k p).1 (append_at (find fuel k p).0 k g) r le found.rep
      ∙ ap (λ l. l ++ later) (members-append_at r (find fuel k p).0 k g)
      ∙ ap (λ x. (if x == r then members r g ++ k ∷ [] else members r g) ++ later) found.root
      ∙ filed (ρ k == r) (members r g) later k

  -- `find` on every key, the unions of the pairs, and the grouping by root
  unfoldable pub partition : ℕ → List K → List (K × K) → Dict K (List K)
  partition fuel ks es = group fuel ks (union_all fuel es (find_all fuel ks [])) []

  unions-Rep :
      (fuel : ℕ) (ks : List K) (es : List (K × K))
      → suc (length es) ≤ fuel
      → Rep (root es) (length es) (union_all fuel es (find_all fuel ks []))
  unions-Rep fuel ks es le =
      let e : 0 + length es ≡ length es = omega arith in
      subst (λ d. Rep (root es) d (union_all fuel es (find_all fuel ks []))) e
        (union_all-Rep fuel es {d = 0} (find_all fuel ks []) (omega arith)
          (find_all-Rep fuel ks [] (omega arith) empty-Rep))

  -- With fuel for one more step than there are pairs, the keys filed under a root are, in order,
  -- those that the pairs connect to it, and two keys have the same root exactly if the pairs
  -- connect them.
  pub partition-Connected :
      (fuel : ℕ) (ks : List K) (es : List (K × K)) (a b : K)
      → suc (length es) ≤ fuel
      → (members (root es a) (partition fuel ks es) ≡ filter (λ k. root es k == root es a) ks)
        × (((root es b == root es a) ≡ true) ↔ Connected es b a)
  unfolding partition
  partition-Connected fuel ks es a b le = (
    members-group fuel ks (union_all fuel es (find_all fuel ks [])) [] (root es a) le
          (unions-Rep fuel ks es le)
        ∙ ap (λ l. l ++ filter (λ k. root es k == root es a) ks) (members-nil (root es a)),
    (
      λ h. (root-eq_iff es b a).0 ((e.beq_iff (root es b) (root es a)).0 h),
      λ c. (e.beq_iff (root es b) (root es a)).1 ((root-eq_iff es b a).1 c),
    ),
  )
