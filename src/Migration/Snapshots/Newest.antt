-- ===== src/Migration/Snapshots/Newest.antt =====
-- Which migration snapshots `select_snapshots_to_delete` of app/migrate.py selects.
use mathlib.Core.List.{Memᴰ}
use mathlib.Core.Path.{subst}
use pve_zfs_tool.Common.{
  ◌≡◌, refl, sym, ◌∙◌, ap, Bool, true, false, not, ◌&&◌, some, List, [], ◌∷◌, arith, ◌==◌,
  string_eq, pair_eq, eq_iff, if◌then◌else◌, filter, contains, any, Bool-cases, inl, inr,
}
use pve_zfs_tool.Common.Dict.{get, get-nil}
use pve_zfs_tool.Common.Text.{str_le, str_le_antisymm}
use pve_zfs_tool.Migration.Snapshots.{Snap, collect_newest, keeps, select_snapshots_to_delete}
use pve_zfs_tool.Migration.Snapshots.Best.{
  tidy-collect_newest, is_newest, contains-keeps, best, get-collect_newest, top, has, best-First,
}

-- whether the dataset has a newer snapshot
abbrev pub has_newer : Snap → List Snap → Bool
has_newer s ss = any (λ r. (r.dataset == s.dataset) && not (str_le r.snapshot s.snapshot)) ss

top-Memᴰ :
    (s b : Snap) (ss : List Snap)
    → Memᴰ s ss
    → top s.dataset b ss ≡ true
    → str_le s.snapshot b.snapshot ≡ true
top-Memᴰ s b [] m h = elim m [ ]
top-Memᴰ s b (r ∷ ss) (Memᴰ.head e) h =
    subst (λ x. str_le x.snapshot b.snapshot ≡ true) (sym e)
      (ground (arith, ap (λ x. x.dataset) e, eq_iff r.dataset s.dataset))
top-Memᴰ s b (r ∷ ss) (Memᴰ.tail m) h = top-Memᴰ s b ss m (ground arith)

has_newer-top :
    (s b : Snap) (ss : List Snap)
    → b.snapshot ≡ s.snapshot
    → top s.dataset b ss ≡ true
    → has_newer s ss ≡ false
has_newer-top s b [] e h = refl
has_newer-top s b (r ∷ ss) e h = ground (arith, has_newer-top s b ss e)

has_newer-has :
    (s b : Snap) (ss : List Snap)
    → str_le b.snapshot s.snapshot ≡ false
    → has s.dataset b ss ≡ true
    → has_newer s ss ≡ true
has_newer-has s b [] e h = h
has_newer-has s b (r ∷ ss) e h =
    ground (arith, has_newer-has s b ss e, eq_iff r.snapshot b.snapshot)

selected-has_newer :
    (s : Snap) (ss : List Snap)
    → Memᴰ s ss
    → not (contains (s.dataset, s.snapshot) (keeps (collect_newest ss []))) ≡ has_newer s ss
selected-has_newer s ss m =
    let b = best-First s.dataset s ss m ((eq_iff s.dataset s.dataset).1 refl) in
    let at_key : get s.dataset (collect_newest ss []) ≡ some b.found =
      get-collect_newest s.dataset ss []
      ∙ ap (λ o. best s.dataset o ss) (get-nil s.dataset)
      ∙ b.is_found in
    ap not (
      contains-keeps s.dataset s.snapshot (collect_newest ss []) (tidy-collect_newest ss [] refl)
      ∙ ap (λ o. is_newest o s.snapshot) at_key)
    ∙ elim (Bool-cases (b.found.snapshot == s.snapshot)) [
      | inl same ↦
          ap not same
          ∙ sym (has_newer-top s b.found ss ((eq_iff b.found.snapshot s.snapshot).0 same) b.is_top)
      | inr differs ↦
          ap not differs
          ∙ sym (
              has_newer-has s b.found ss
                (ground (
                  arith,
                  top-Memᴰ s b.found ss m b.is_top,
                  str_le_antisymm b.found.snapshot s.snapshot,
                  eq_iff b.found.snapshot s.snapshot,
                ))
                b.is_there)
    ]

filter-agree :
    (p q : Snap → Bool) (xs : List Snap)
    → ((x : Snap) → Memᴰ x xs → p x ≡ q x)
    → filter p xs ≡ filter q xs
filter-agree p q [] h = refl
filter-agree p q (x ∷ xs) h =
    ap (λ b. if b then x ∷ filter p xs else filter p xs) (h x (Memᴰ.head refl))
    ∙ ap (λ l. if q x then x ∷ l else l) (filter-agree p q xs (λ y m. h y (Memᴰ.tail m)))

-- Sparing the latest, exactly those snapshots are selected, in order, whose dataset has a newer
-- one.
pub select_snapshots_to_delete-has_newer :
    (ss : List Snap) → select_snapshots_to_delete ss true ≡ filter (λ s. has_newer s ss) ss
unfolding select_snapshots_to_delete
select_snapshots_to_delete-has_newer ss =
    filter-agree (λ s. not (contains (s.dataset, s.snapshot) (keeps (collect_newest ss []))))
      (λ s. has_newer s ss) ss (λ s m. selected-has_newer s ss m)
