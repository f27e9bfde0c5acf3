-- ===== src/Inventory/Matrix/Listed.antt =====
-- The matrix of app/replication_inventory.py hides no guest.
use pve_zfs_tool.Common.{
  String, ◌≡◌, refl, ◌∙◌, Bool, true, false, ◌&&◌, ◌||◌, List, [], ◌∷◌, ◌++◌, filter, any,
  any-append, any-filter, arith, nat_beq, ◌==◌, string_eq, if◌then◌else◌, eq_iff,
}
use pve_zfs_tool.Common.Sort.{any-sorted}
use pve_zfs_tool.Common.Words.{is_empty}
use pve_zfs_tool.Inventory.Compare.{Copy}
use pve_zfs_tool.Inventory.Matrix.{
  Guest, Entry, Pair, Autosnap, guest_names, lineage_entries, is_of, unseen, all_unseen, entry_le,
  build_matrix, is_replicated, filter_matrix,
}

-- whether the host lists a guest with the number
abbrev pub lists : String → String → List (String × List Guest) → Bool
lists host vmid hosts = any (λ h. h.0 == host && any (λ g. g.vmid == vmid) h.1) hosts

unseen-listed :
    (seen : List Entry) (host vmid : String) (gs : List Guest)
    → is_empty vmid ≡ false
    → any (λ g. g.vmid == vmid) gs ≡ true
    → (any (is_of host vmid) seen || any (is_of host vmid) (unseen seen host gs)) ≡ true
unfolding unseen
unseen-listed seen host vmid [] v h = ground arith
unseen-listed seen host vmid (g ∷ gs) v h =
    ground (arith, unseen-listed seen host vmid gs v, eq_iff g.vmid vmid, eq_iff host host)

all_unseen-listed :
    (seen : List Entry) (host vmid : String) (hosts : List (String × List Guest))
    → is_empty vmid ≡ false
    → lists host vmid hosts ≡ true
    → (any (is_of host vmid) seen || any (is_of host vmid) (all_unseen seen hosts)) ≡ true
unfolding all_unseen
all_unseen-listed seen host vmid [] v h = ground arith
all_unseen-listed seen host vmid ((k, gs) ∷ hosts) v h = ground (
  arith,
  eq_iff k host,
  unseen-listed seen k vmid gs v,
  any-append (is_of host vmid) (unseen seen k gs) (all_unseen seen hosts),
  all_unseen-listed seen host vmid hosts v,
)

build_matrix-listed :
    (lineages : List (List Copy)) (hosts : List (String × List Guest)) (configured : List Pair)
    (autosnap : Autosnap) (host vmid : String)
    → is_empty vmid ≡ false
    → lists host vmid hosts ≡ true
    → any (is_of host vmid) (build_matrix lineages hosts configured autosnap) ≡ true
unfolding build_matrix
build_matrix-listed lineages hosts configured autosnap host vmid v h =
    let es = lineage_entries (guest_names hosts []) configured autosnap lineages in
    any-sorted entry_le (is_of host vmid) (es ++ all_unseen es hosts)
    ∙ any-append (is_of host vmid) es (all_unseen es hosts)
    ∙ all_unseen-listed es host vmid hosts v h

parts-any :
    (p : Entry → Bool) (xs : List Entry)
    → any p (filter is_replicated xs ++ filter (λ g. nat_beq g.copy_count 0) xs) ≡ any p xs
parts-any p [] = refl
parts-any p (x ∷ xs) = ground (
  arith,
  parts-any p xs,
  any-append p (filter is_replicated (x ∷ xs)) (filter (λ g. nat_beq g.copy_count 0) (x ∷ xs)),
  any-append p (filter is_replicated xs) (filter (λ g. nat_beq g.copy_count 0) xs),
)

chosen-any :
    (p q : Entry → Bool) (all : Bool) (xs : List Entry)
    → any p (if all then xs else filter q xs) ≡ any (λ g. (all || q g) && p g) xs
chosen-any p q true xs = refl
chosen-any p q false xs = any-filter p q xs

any-ext : (p q : Entry → Bool) → ((g : Entry) → p g ≡ q g) → (xs : List Entry) → any p xs ≡ any q xs
any-ext p q same [] = refl
any-ext p q same (x ∷ xs) = ground (arith, same x, any-ext p q same xs)

narrowed :
    (host vmid : String) (g : Entry)
    → ((is_empty host || g.source_host == host) && is_of host vmid g) ≡ is_of host vmid g
narrowed host vmid g = ground arith

filter_matrix-listed :
    (matrix : List Entry) (host vmid : String)
    → any (is_of host vmid) (filter_matrix matrix host).guests ≡ any (is_of host vmid) matrix
unfolding filter_matrix
filter_matrix-listed matrix host vmid =
    parts-any (is_of host vmid)
      (if is_empty host then matrix else filter (λ g. g.source_host == host) matrix)
    ∙ chosen-any (is_of host vmid) (λ g. g.source_host == host) (is_empty host) matrix
    ∙ any-ext (λ g. (is_empty host || g.source_host == host) && is_of host vmid g) (is_of host vmid)
        (narrowed host vmid) matrix

-- A guest that a host lists is in the matrix narrowed to that host, whether it has snapshots,
-- copies or neither: no guest with a number is hidden.
pub guest_listed :
    (lineages : List (List Copy)) (hosts : List (String × List Guest)) (configured : List Pair)
    (autosnap : Autosnap) (host vmid : String)
    → is_empty vmid ≡ false
    → lists host vmid hosts ≡ true
    → any
        (is_of host vmid)
        (filter_matrix (build_matrix lineages hosts configured autosnap) host).guests
      ≡ true
guest_listed lineages hosts configured autosnap host vmid v h =
    filter_matrix-listed (build_matrix lineages hosts configured autosnap) host vmid
    ∙ build_matrix-listed lineages hosts configured autosnap host vmid v h
