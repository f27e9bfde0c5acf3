-- ===== src/SnapTags/Laws.antt =====
-- The saved selections of app/snaptags.py.
use pve_zfs_tool.Common.{
  String, ◌≡◌, refl, ◌∙◌, Bool, true, not, ◌&&◌, List, [], ◌∷◌, filter, all, ◌==◌, string_eq, arith,
  if◌then◌else◌, contains, nat_beq, count_if, eq_iff, beq_refl,
}
use pve_zfs_tool.Common.Dict.{get-put, get-remove}
use pve_zfs_tool.Common.Sort.{sorted, count_if-sorted, all-sorted}
use pve_zfs_tool.Common.Text.{str_le}
use pve_zfs_tool.SnapTags.{
  Selections, is_valid_tag, distinct, load_tag_selection, valid_tags, save_tag_selection,
  effective_tags, default_tags,
}

contains-count_if :
    (t : String) (xs : List String) → contains t xs ≡ not (nat_beq (count_if (λ x. t == x) xs) 0)
contains-count_if t [] = refl
contains-count_if t (x ∷ xs) = ground (arith, contains-count_if t xs)

contains-sorted : (t : String) (xs : List String) → contains t (sorted str_le xs) ≡ contains t xs
contains-sorted t xs = ground (
  arith,
  contains-count_if t (sorted str_le xs),
  contains-count_if t xs,
  count_if-sorted str_le (λ x. t == x) xs,
)

pub contains-distinct : (t : String) (xs : List String) → contains t (distinct xs) ≡ contains t xs
unfolding distinct
contains-distinct t [] = refl
contains-distinct t (x ∷ xs) = ground (arith, contains-distinct t xs, eq_iff t x)

all-distinct : (p : String → Bool) (xs : List String) → all p xs ≡ true → all p (distinct xs) ≡ true
unfolding distinct
all-distinct p [] h = refl
all-distinct p (x ∷ xs) h = ground (arith, all-distinct p xs)

all-filter : (p : String → Bool) (xs : List String) → all p (filter p xs) ≡ true
all-filter p [] = refl
all-filter p (x ∷ xs) = ground (arith, all-filter p xs)

filter-all : (p : String → Bool) (xs : List String) → all p xs ≡ true → filter p xs ≡ xs
filter-all p [] h = refl
filter-all p (x ∷ xs) h = ground (arith, filter-all p xs)

contains-filter :
    (p : String → Bool) (t : String) (xs : List String)
    → contains t (filter p xs) ≡ (contains t xs && p t)
contains-filter p t [] = refl
contains-filter p t (x ∷ xs) = ground (arith, contains-filter p t xs, eq_iff t x)

valid_tags-valid : (tags : List String) → filter is_valid_tag (valid_tags tags) ≡ valid_tags tags
valid_tags-valid tags = filter-all is_valid_tag (valid_tags tags) (
    all-sorted str_le is_valid_tag (distinct (filter is_valid_tag tags))
    ∙ all-distinct is_valid_tag (filter is_valid_tag tags) (all-filter is_valid_tag tags))

valid_tags-contains :
    (t : String) (tags : List String)
    → contains t (valid_tags tags) ≡ (contains t tags && is_valid_tag t)
valid_tags-contains t tags =
    contains-sorted t (distinct (filter is_valid_tag tags))
    ∙ contains-distinct t (filter is_valid_tag tags)
    ∙ contains-filter is_valid_tag t tags

-- What is saved for a host is what is loaded for it afterwards: the valid tags of the selection,
-- nothing after a reset; the selections of the other hosts stay as they were.
pub load-save :
    (address k : String) (tags : List String) (reset : Bool) (sels : Selections)
    → load_tag_selection k (save_tag_selection address tags reset sels).0 ≡ (
        if address == k
        then (save_tag_selection address tags reset sels).1
        else load_tag_selection k sels)
unfolding load_tag_selection save_tag_selection
load-save address k tags reset sels = ground (
  arith,
  get-put k address (valid_tags tags) sels,
  get-remove k address sels,
  valid_tags-valid tags,
)

-- The tags in effect for a host whose selection was just saved are the valid ones among those
-- selected, even if there are none, and no others; after a reset they are the default tags.
pub effective-save :
    (address t : String) (tags : List String) (reset : Bool) (sels : Selections)
    → contains t (effective_tags address (save_tag_selection address tags reset sels).0)
      ≡ (if reset then contains t default_tags else contains t tags && is_valid_tag t)
unfolding effective_tags save_tag_selection
effective-save address t tags reset sels =
    ground (
      arith,
      load-save address address tags reset sels,
      valid_tags-contains t tags,
      beq_refl address,
    )
