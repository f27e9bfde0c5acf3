-- ===== src/Replication/Cron/Fields.antt =====
-- The numbers that `_expand_field` of app/replication_monitor.py finds.
use pve_zfs_tool.Common.{
  ℕ, ◌≡◌, refl, true, Option, none, some, List, [], ◌∷◌, ◌++◌, arith, all, all-append, String,
}
use pve_zfs_tool.Common.Scan.{◌>>=◌}
use pve_zfs_tool.Common.Words.{split_on}
use pve_zfs_tool.Replication.Cron.{
  sorted_set, in_field, fired, range, read_int, Number, step_of, ends_of, cut, expand_split,
  expand_part, expand_parts, expand_field,
}
use pve_zfs_tool.Replication.Cron.Apart.{
  all_apart, all_apart-sorted_set, all-sorted_set, all-filter,
}

module _ (lo hi : ℕ) where
  abbrev In : List ℕ → Type 0
  In vs = all (in_field lo hi) vs ≡ true

  abbrev InIfRead : Option (List ℕ) → Type 0
  InIfRead none = Unit
  InIfRead (some vs) = In vs

  fired_in : (step : ℕ) (o : Option (ℕ × ℕ)) → InIfRead (o >>= λ ends. some (fired lo hi step ends))
  fired_in step none = tt
  fired_in step (some (start, stop)) = all-filter (in_field lo hi) (range start stop step)

  fired_by_in :
      (m : Option Number) (o : Option (ℕ × ℕ))
      → InIfRead (m >>= λ n. o >>= λ ends. some (fired lo hi (step_of n) ends))
  fired_by_in none o = tt
  fired_by_in (some n) o = fired_in (step_of n) o

  expand_split_in :
      (part : String) (split : Option (String × String)) → InIfRead (expand_split lo hi part split)
  unfolding expand_split
  expand_split_in part none = fired_in 1 (ends_of lo hi part)
  expand_split_in part (some (base, step_s)) = fired_by_in (read_int step_s) (ends_of lo hi base)

  expand_part_in : (part : String) → InIfRead (expand_part lo hi part)
  unfolding expand_part
  expand_part_in part = expand_split_in part (cut b'/' part)

  join_in :
      (o q : Option (List ℕ))
      → InIfRead o
      → InIfRead q
      → InIfRead (o >>= λ vs. q >>= λ more. some (vs ++ more))
  join_in none q h k = tt
  join_in (some vs) none h k = tt
  join_in (some vs) (some more) h k = ground (arith, all-append (in_field lo hi) vs more)

  expand_parts_in : (parts : List String) → InIfRead (expand_parts lo hi parts)
  unfolding expand_parts
  expand_parts_in [] = refl
  expand_parts_in (part ∷ parts) =
      join_in (expand_part lo hi part) (expand_parts lo hi parts) (expand_part_in part)
        (expand_parts_in parts)

  abbrev pub Field : Option (List ℕ) → Type 0
  Field none = Unit
  Field (some vs) = In vs × (all_apart 1 vs ≡ true)

  sorted_set-Field : (o : Option (List ℕ)) → InIfRead o → Field (o >>= λ vs. some (sorted_set vs))
  sorted_set-Field none h = tt
  sorted_set-Field (some vs) h = (all-sorted_set (in_field lo hi) vs h, all_apart-sorted_set vs)

  -- A field is read as numbers in its range that go up.
  pub expand_field_lem : (field : String) → Field (expand_field field lo hi)
  unfolding expand_field
  expand_field_lem field =
      let (part, parts) = split_on b',' field in
      sorted_set-Field (expand_parts lo hi (part ∷ parts)) (expand_parts_in (part ∷ parts))
