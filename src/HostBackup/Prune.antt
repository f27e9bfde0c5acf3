-- ===== src/HostBackup/Prune.antt =====
-- What `select_prunable` and `prune_backups` of app/hostbackup.py keep.
use pve_zfs_tool.Common.{
  ℕ, zero, suc, ◌+◌, inl, inr, Bool-cases, ◌-◌, ◌<◌, min, String, ◌≡◌, refl, sym, ap, ◌∙◌, Bool,
  true, false, not, ◌&&◌, some, List, [], ◌∷◌, ◌++◌, arith, leb, nat_beq, ◌==◌, string_eq,
  if◌then◌else◌, length, take, drop, filter, all, count_if, take-append-drop, length-drop, any,
  filter-filter, filter-true, filter-ext, eq_iff, ◌||◌,
}
use pve_zfs_tool.Common.Scan.{
  >>=-eq-some, skip, read_digits, str_le-skip, str_le-digits_lt, str_le-digits_eq, read_digits-lt,
}
use pve_zfs_tool.Common.Sort.{all-sorted, sorted, IsSorted, sorted-IsSorted}
use pve_zfs_tool.Common.Text.{str_le, str_le_total, str_le_trans}
use pve_zfs_tool.HostBackup.{
  is_valid_backup_name, select_prunable, remove_file, remove_all, prune_backups, scan_stamp,
}

-- the names that are backups, oldest first
abbrev pub valid : List String → List String
valid names = sorted str_le (filter is_valid_backup_name names)

abbrev pub kept : List String → ℕ → List String
kept names keep = drop (length (valid names) - keep) (valid names)

all-drop {ℓ} :
    {A : Type ℓ} (p : A → Bool) (n : ℕ) (xs : List A) → all p xs ≡ true → all p (drop n xs) ≡ true
all-drop p zero xs h = h
all-drop p (suc n) [] h = refl
all-drop p (suc n) (x ∷ xs) h = all-drop p n xs (ground arith)

take-sorted :
    (n : ℕ) (xs : List String)
    → IsSorted str_le xs
    → all (λ d. all (str_le d) (drop n xs)) (take n xs) ≡ true
take-sorted zero xs h = refl
take-sorted (suc n) [] h = refl
take-sorted (suc n) (x ∷ xs) h = ground (arith, all-drop (str_le x) n xs, take-sorted n xs h.1)

take-length : (xs : List String) → take (length xs) xs ≡ xs
take-length [] = refl
take-length (x ∷ xs) = ap (◌∷◌ x) (take-length xs)

-- The three branches of `select_prunable` are one slice.
select_prunable-take :
    (names : List String) (keep : ℕ)
    → select_prunable names keep ≡ take (length (valid names) - keep) (valid names)
unfolding select_prunable
select_prunable-take names keep = elim (Bool-cases (nat_beq keep 0)) [
  | inl z ↦ rw z (
      let e : length (valid names) - keep ≡ length (valid names) = ground arith in
      rw e (sym (take-length (valid names))))
  | inr p ↦ rw p (elim (Bool-cases (leb (length (valid names)) keep)) [
    | inl few ↦ rw few (let e : length (valid names) - keep ≡ 0 = ground arith in rw e)
    | inr many ↦ rw many
  ])
]

-- What is selected for deletion and what is kept make up the valid names in order, `keep` of them
-- are kept if there are so many, and each one deleted is at most each one kept.
pub select_prunable_lem :
    (names : List String) (keep : ℕ)
    → (select_prunable names keep ++ kept names keep ≡ valid names)
      × (length (kept names keep) ≡ min keep (length (valid names)))
      × (all (λ d. all (str_le d) (kept names keep)) (select_prunable names keep) ≡ true)
select_prunable_lem names keep = rw (select_prunable-take names keep) (
  take-append-drop (length (valid names) - keep) (valid names),
  omega (arith, length-drop (length (valid names) - keep) (valid names)),
  take-sorted (length (valid names) - keep) (valid names)
      (sorted-IsSorted str_le str_le_total str_le_trans (filter is_valid_backup_name names)),
)

-- the stages of a scan that succeeds
record Stages (name : String) (n : ℕ) (rest : String) : Type 0 where
  dated : String
  date : ℕ
  dashed : String
  timed : String
  prefix : skip "pve-backup-" name ≡ some dated
  day : read_digits 8 0 dated ≡ some (date, dashed)
  dash : skip "-" dashed ≡ some timed
  time : read_digits 6 date timed ≡ some (n, rest)

scan_stamp-Stages :
    (name : String) (n : ℕ) (rest : String) → scan_stamp name ≡ some (n, rest) → Stages name n rest
unfolding scan_stamp
scan_stamp-Stages name n rest h =
    let a = >>=-eq-some (skip "pve-backup-" name) _ h in
    let b = >>=-eq-some (read_digits 8 0 a.0) _ a.2 in
    let c = >>=-eq-some (skip "-" b.0.1) _ b.2 in
    record {
      dated = a.0;
      date = b.0.0;
      dashed = b.0.1;
      timed = c.0;
      prefix = a.1;
      day = b.1;
      dash = c.1;
      time = c.2;
    }

-- Of two names with a time stamp, the one with the earlier stamp sorts first.
pub stamp_order :
    (a b : String) (m n : ℕ) (s t : String)
    → scan_stamp a ≡ some (m, s)
    → scan_stamp b ≡ some (n, t)
    → m < n
    → str_le b a ≡ false
stamp_order a b m n s t h k l =
    let p = scan_stamp-Stages a m s h in
    let q = scan_stamp-Stages b n t k in
    ground (
      arith,
      str_le-skip "pve-backup-" b a q.dated p.dated q.prefix p.prefix,
      str_le-digits_lt 8 0 p.dated q.dated p.date q.date p.dashed q.dashed p.day q.day,
      read_digits-lt 6 q.date p.date q.timed p.timed n m t s q.time p.time,
      str_le-digits_eq 8 0 q.dated p.dated q.date q.dashed p.dashed q.day,
      str_le-skip "-" q.dashed p.dashed q.timed p.timed q.dash p.dash,
      str_le-digits_lt 6 p.date p.timed q.timed m n s t p.time,
    )

module _ (removable : String → Bool) where
  -- the files that a row of removals takes away
  abbrev pub doomed : List String → String → Bool
  doomed names f = any (λ d. removable d && f == d) names

  remove_file-filter :
      (d : String) (dir : List String)
      → remove_file removable d dir ≡ filter (λ f. not (removable d && f == d)) dir
  unfolding remove_file
  remove_file-filter d dir = elim (Bool-cases (removable d)) [
    | inl goes ↦ rw goes
    | inr stays ↦ rw stays (sym (filter-true dir))
  ]

  remove_all-dir :
      (names dir : List String) (n : ℕ)
      → (remove_all removable names dir n).0 ≡ filter (λ f. not (doomed names f)) dir
  unfolding remove_all
  remove_all-dir [] dir n = sym (filter-true dir)
  remove_all-dir (d ∷ names) dir n =
      remove_all-dir names (remove_file removable d dir) (if removable d then suc n else n)
      ∙ ap (filter (λ f. not (doomed names f))) (remove_file-filter d dir)
      ∙ filter-filter (λ f. not (doomed names f)) (λ f. not (removable d && f == d)) dir
      ∙ filter-ext (λ f. not (removable d && f == d) && not (doomed names f))
          (λ f. not (doomed (d ∷ names) f)) (λ f. ground arith) dir

  remove_all-count :
      (names dir : List String) (n : ℕ)
      → (remove_all removable names dir n).1 ≡ n + count_if removable names
  unfolding remove_all
  remove_all-count [] dir n = omega arith
  remove_all-count (d ∷ names) dir n = ground (
    arith,
    remove_all-count names (remove_file removable d dir) (if removable d then suc n else n),
  )

  not_doomed :
      (names : List String) (f : String)
      → all is_valid_backup_name names ≡ true
      → is_valid_backup_name f ≡ false
      → doomed names f ≡ false
  not_doomed [] f h k = refl
  not_doomed (d ∷ names) f h k = ground (arith, not_doomed names f, eq_iff f d)

  all-filter_self :
      (names : List String) → all is_valid_backup_name (filter is_valid_backup_name names) ≡ true
  all-filter_self [] = refl
  all-filter_self (d ∷ names) = ground (arith, all-filter_self names)

  all-take :
      (n : ℕ) (xs : List String)
      → all is_valid_backup_name xs ≡ true
      → all is_valid_backup_name (take n xs) ≡ true
  all-take zero xs h = refl
  all-take (suc n) [] h = refl
  all-take (suc n) (x ∷ xs) h = ground (arith, all-take n xs)

  select_prunable-valid :
      (names : List String) (keep : ℕ)
      → all is_valid_backup_name (select_prunable names keep) ≡ true
  select_prunable-valid names keep = rw (select_prunable-take names keep) (
      all-take (length (valid names) - keep) (valid names) (
        all-sorted str_le is_valid_backup_name (filter is_valid_backup_name names)
        ∙ all-filter_self names))

  abbrev pub selected : List String → ℕ → List String
  selected dir keep = select_prunable (filter is_valid_backup_name dir) keep

  -- Pruning takes exactly the selected files that the system lets it remove, counts them, and
  -- leaves every file whose name is not that of a backup.
  pub prune_backups_lem :
      (dir : List String) (keep : ℕ) (f : String)
      → ((prune_backups removable dir keep).0
          ≡ filter (λ g. not (doomed (selected dir keep) g)) dir)
        × ((prune_backups removable dir keep).1 ≡ count_if removable (selected dir keep))
        × ((is_valid_backup_name f || not (doomed (selected dir keep) f)) ≡ true)
  unfolding prune_backups
  prune_backups_lem dir keep f = (
    remove_all-dir (selected dir keep) dir 0,
    omega (arith, remove_all-count (selected dir keep) dir 0),
    ground (
      arith,
      not_doomed (selected dir keep) f
          (select_prunable-valid (filter is_valid_backup_name dir) keep),
    ),
  )
