-- ===== src/Inventory/Compare/Laws.antt =====
-- The source of a lineage, and what counts as missing from a copy
-- (app/replication_inventory.py).
use mathlib.Core.List.{Memᴰ}
use pve_zfs_tool.Common.{
  ℕ, ◌+◌, String, ◌≡◌, refl, inl, inr, Bool, true, false, not, ◌&&◌, Option, none, some, List, [],
  ◌∷◌, arith, ltb, nat_beq, string_eq, if◌then◌else◌, length, filter, contains, all, count_if,
  Bool-cases,
}
use pve_zfs_tool.Common.Text.{str_le_total, str_le_trans, str_le_refl}
use pve_zfs_tool.Inventory.Compare.{
  Copy, key, key_le, is_candidate, max_by_key, detect_source, label_of, is_in, is_nil, shared,
  missing, compare_copy,
}

key_le_total : (p q : ℕ × ℕ × String) → key_le p q ≡ false → key_le q p ≡ true
unfolding key_le
key_le_total (a, b, s) (c, d, t) h = ground (arith, str_le_total s t)

key_le_trans : (p q r : ℕ × ℕ × String) → key_le p q ≡ true → key_le q r ≡ true → key_le p r ≡ true
unfolding key_le
key_le_trans (a, b, s) (c, d, t) (e, f, u) h k = ground (arith, str_le_trans s t u)

key_le_refl : (p : ℕ × ℕ × String) → key_le p p ≡ true
unfolding key_le
key_le_refl (a, b, s) = ground (arith, str_le_refl s)

-- no candidate exceeds the one chosen
abbrev pub tops : Copy → List Copy → Bool
tops best cs = all (λ c. key_le (key c) (key best)) cs

skip_second : {a b c : Copy} {cs : List Copy} → Memᴰ a (b ∷ cs) → Memᴰ a (b ∷ c ∷ cs)
skip_second (Memᴰ.head h) = Memᴰ.head h
skip_second (Memᴰ.tail m) = Memᴰ.tail (Memᴰ.tail m)

max_by_key-ge : (best : Copy) (cs : List Copy) → key_le (key best) (key (max_by_key best cs)) ≡ true
unfolding max_by_key
max_by_key-ge best [] = key_le_refl (key best)
max_by_key-ge best (c ∷ cs) =
    let next = if key_le (key c) (key best) then best else c in
    ground (
      arith,
      max_by_key-ge next cs,
      key_le_total (key c) (key best),
      key_le_trans (key best) (key c) (key (max_by_key c cs)),
    )

max_by_key-tops : (best : Copy) (cs : List Copy) → tops (max_by_key best cs) cs ≡ true
unfolding max_by_key
max_by_key-tops best [] = refl
max_by_key-tops best (c ∷ cs) =
    let next = if key_le (key c) (key best) then best else c in
    ground (
      arith,
      max_by_key-ge next cs,
      max_by_key-tops next cs,
      key_le_trans (key c) (key best) (key (max_by_key best cs)),
    )

max_by_key-Memᴰ : (best : Copy) (cs : List Copy) → Memᴰ (max_by_key best cs) (best ∷ cs)
unfolding max_by_key
max_by_key-Memᴰ best [] = Memᴰ.head refl
max_by_key-Memᴰ best (c ∷ cs) = elim (Bool-cases (key_le (key c) (key best))) [
  | inl stays ↦ rw stays (skip_second (max_by_key-Memᴰ best cs))
  | inr goes ↦ rw goes (Memᴰ.tail (max_by_key-Memᴰ c cs))
]

-- What the function returns: nothing if no copy has a snapshot, otherwise a copy with one that no
-- other exceeds by newest time, number of snapshots and host name.
abbrev pub IsSource : Option Copy → List Copy → Type 0
IsSource none copies = filter is_candidate copies ≡ []
IsSource (some c) copies =
    Memᴰ c (filter is_candidate copies) × (tops c (filter is_candidate copies) ≡ true)

chosen-IsSource :
    (c : Copy) (cs copies : List Copy)
    → filter is_candidate copies ≡ c ∷ cs
    → IsSource (some (max_by_key c cs)) copies
chosen-IsSource c cs copies h =
    rw h (max_by_key-Memᴰ c cs, ground (arith, max_by_key-ge c cs, max_by_key-tops c cs))

-- The source is nothing exactly if no copy has a snapshot; otherwise it is a copy that has one,
-- and no other such copy exceeds it by newest time, then number of snapshots, then host name.
pub detect_source-IsSource : (copies : List Copy) → IsSource (detect_source copies) copies
unfolding detect_source
detect_source-IsSource copies = go (filter is_candidate copies) refl
  where
    go : (l : List Copy) → filter is_candidate copies ≡ l → IsSource (detect_source copies) copies
    go [] h = rw (h, detect_source) h
    go (c ∷ cs) h = rw (h, detect_source) (chosen-IsSource c cs copies h)

-- a snapshot of the source that the copy lacks and whose label it does not carry
abbrev pub is_skipped : Copy → Copy → String → Bool
is_skipped source copy g =
    not (contains g copy.guids)
    && not (is_nil copy.labels)
    && not (is_in (label_of source g) copy.labels)

missing-split :
    (source copy : Copy) (gs : List String)
    → length (filter (λ g. contains g copy.guids) gs)
        + length (
            if is_nil copy.labels
            then filter (λ g. not (contains g copy.guids)) gs
            else filter
                (λ g. is_in (label_of source g) copy.labels)
                (filter (λ g. not (contains g copy.guids)) gs))
        + count_if (is_skipped source copy) gs
      ≡ length gs
missing-split source copy [] = ground arith
missing-split source copy (g ∷ gs) = ground (arith, missing-split source copy gs)

in_sync-lengths :
    (xs ys : List String)
    → (not (is_nil xs) && is_nil ys) ≡ (ltb 0 (length xs) && nat_beq (length ys) 0)
in_sync-lengths [] ys = ground arith
in_sync-lengths (x ∷ xs) [] = ground arith
in_sync-lengths (x ∷ xs) (y ∷ ys) = ground arith

-- Each snapshot of the source is shared with the copy, missing from it, or skipped because the
-- copy carries no snapshot of its label; and the copy is in sync exactly if some snapshot is
-- shared and none is missing.
pub compare_copy_lem :
    (source copy : Copy)
    → ((compare_copy source copy).shared_snapshots
          + (compare_copy source copy).missing_from_source
          + count_if (is_skipped source copy) source.guids
        ≡ length source.guids)
      × ((compare_copy source copy).in_sync ≡ (
          ltb 0 (compare_copy source copy).shared_snapshots
          && nat_beq (compare_copy source copy).missing_from_source 0))
unfolding compare_copy missing
compare_copy_lem source copy = (
  missing-split source copy source.guids,
  in_sync-lengths (shared source copy) (missing source copy),
)
