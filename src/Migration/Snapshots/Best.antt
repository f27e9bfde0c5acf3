-- ===== src/Migration/Snapshots/Best.antt =====
-- The newest snapshot of each dataset, as the first loop of `select_snapshots_to_delete` in
-- app/migrate.py finds it.
use mathlib.Core.List.{Memᴰ}
use pve_zfs_tool.Common.{
  String, ◌≡◌, refl, ap, Bool, true, false, not, ◌&&◌, ◌||◌, Option, none, some, List, [], ◌∷◌,
  arith, ◌==◌, string_eq, pair_eq, eq_iff, if◌then◌else◌, contains, any, all, Bool-cases, inl, inr,
}
use pve_zfs_tool.Common.Dict.{Dict, get, put, get-put, get-nil}
use pve_zfs_tool.Common.Text.{str_le, str_le_total, str_le_trans, str_le_refl}
use pve_zfs_tool.Migration.Snapshots.{Snap, collect_newest, keeps}

abbrev pub is_none {ℓ} : {A : Type ℓ} → Option A → Bool
is_none none = true
is_none (some _) = false

-- each key once, and the dataset of its value
abbrev pub tidy : Dict String Snap → Bool
tidy [] = true
tidy ((k, s) ∷ m) = (s.dataset == k) && is_none (get k m) && tidy m

pub tidy-put : (s : Snap) (m : Dict String Snap) → tidy m ≡ true → tidy (put s.dataset s m) ≡ true
unfolding put
tidy-put s [] h = ground (arith, eq_iff s.dataset s.dataset, get-nil {V = Snap} s.dataset)
tidy-put s ((k, r) ∷ m) h =
    ground (arith, tidy-put s m, get-put k s.dataset s m, eq_iff k s.dataset, eq_iff s.dataset k)

pub tidy-collect_newest :
    (ss : List Snap) (m : Dict String Snap) → tidy m ≡ true → tidy (collect_newest ss m) ≡ true
unfolding collect_newest
tidy-collect_newest [] m h = h
tidy-collect_newest (s ∷ ss) m h =
    ground
      (arith, tidy-collect_newest ss m, tidy-collect_newest ss (put s.dataset s m), tidy-put s m h)

abbrev pub is_newest : Option Snap → String → Bool
is_newest none x = false
is_newest (some n) x = n.snapshot == x

pub contains-keeps :
    (k x : String) (m : Dict String Snap)
    → tidy m ≡ true
    → contains (k, x) (keeps m) ≡ is_newest (get k m) x
unfolding keeps get
contains-keeps k x [] h = refl
contains-keeps k x ((j, s) ∷ m) h = ground (
  arith,
  contains-keeps k x m,
  eq_iff j k,
  eq_iff k s.dataset,
  eq_iff s.dataset j,
  eq_iff s.snapshot x,
  eq_iff x s.snapshot,
)

abbrev pub better : Option Snap → Snap → Option Snap
better none s = some s
better (some n) s = if str_le s.snapshot n.snapshot then some n else some s

-- the newest of a dataset, after one on record
unfoldable pub best : String → Option Snap → List Snap → Option Snap
best k o [] = o
best k o (s ∷ ss) = best k (if s.dataset == k then better o s else o) ss

pub get-collect_newest :
    (k : String) (ss : List Snap) (m : Dict String Snap)
    → get k (collect_newest ss m) ≡ best k (get k m) ss
unfolding collect_newest best
get-collect_newest k [] m = refl
get-collect_newest k (s ∷ ss) m = ground (
  arith,
  get-collect_newest k ss m,
  get-collect_newest k ss (put s.dataset s m),
  get-put k s.dataset s m,
  eq_iff s.dataset k,
)

-- no snapshot of the dataset is newer
abbrev pub top : String → Snap → List Snap → Bool
top k b ss = all (λ r. not (r.dataset == k) || str_le r.snapshot b.snapshot) ss

abbrev pub has : String → Snap → List Snap → Bool
has k b ss = any (λ r. (r.dataset == k) && (r.snapshot == b.snapshot)) ss

pub record Best (k : String) (n : Snap) (o : Option Snap) (ss : List Snap) : Type 0 where
  pub found : Snap
  pub is_found : o ≡ some found
  pub above : str_le n.snapshot found.snapshot ≡ true
  pub is_top : top k found ss ≡ true
  pub is_there : ((n.snapshot == found.snapshot) || has k found ss) ≡ true

pub best-Best : (k : String) (n : Snap) (ss : List Snap) → Best k n (best k (some n) ss) ss
unfolding best
best-Best k n [] = record {
  found = n;
  is_found = refl;
  above = str_le_refl n.snapshot;
  is_top = refl;
  is_there = ground (arith, eq_iff n.snapshot n.snapshot);
}
best-Best k n (s ∷ ss) = elim (Bool-cases (s.dataset == k)) [
  | inr other ↦
      let b = best-Best k n ss in
      rw other (record {
        found = b.found;
        is_found = b.is_found;
        above = b.above;
        is_top = ground (arith, b.is_top);
        is_there = ground (arith, b.is_there);
      })
  | inl ours ↦ elim (Bool-cases (str_le s.snapshot n.snapshot)) [
    | inl older ↦
        let b = best-Best k n ss in
        rw (ours, older)
          (record {
            found = b.found;
            is_found = b.is_found;
            above = b.above;
            is_top =
                ground
                  (arith, b.is_top, b.above, str_le_trans s.snapshot n.snapshot b.found.snapshot);
            is_there = ground (arith, b.is_there);
          })
    | inr newer ↦
        let b = best-Best k s ss in
        rw (ours, newer)
          (record {
            found = b.found;
            is_found = b.is_found;
            above = ground (
              arith,
              b.above,
              str_le_total s.snapshot n.snapshot newer,
              str_le_trans n.snapshot s.snapshot b.found.snapshot,
            );
            is_top = ground (arith, b.is_top, b.above);
            is_there = ground (arith, b.is_there);
          })
  ]
]

pub record First (k : String) (o : Option Snap) (ss : List Snap) : Type 0 where
  pub found : Snap
  pub is_found : o ≡ some found
  pub is_top : top k found ss ≡ true
  pub is_there : has k found ss ≡ true

pub best-First :
    (k : String) (s : Snap) (ss : List Snap)
    → Memᴰ s ss
    → (s.dataset == k) ≡ true
    → First k (best k none ss) ss
unfolding best
best-First k s [] m h = elim m [ ]
best-First k s (r ∷ ss) m h = elim (Bool-cases (r.dataset == k)) [
  | inl ours ↦
      let b = best-Best k r ss in
      rw ours (record {
        found = b.found;
        is_found = b.is_found;
        is_top = ground (arith, b.is_top, b.above);
        is_there = ground (arith, b.is_there);
      })
  | inr other ↦ elim m [
    | Memᴰ.head e ↦ absurd (ground (arith, ap (λ x. x.dataset == k) e))
    | Memᴰ.tail i ↦
        let b = best-First k s ss i h in
        rw other (record {
          found = b.found;
          is_found = b.is_found;
          is_top = ground (arith, b.is_top);
          is_there = ground (arith, b.is_there);
        })
  ]
]
