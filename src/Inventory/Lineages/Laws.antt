-- ===== src/Inventory/Lineages/Laws.antt =====
-- Places of one guid fall into one lineage.
use mathlib.Core.List.{Memᴰ, append-nil, append_assoc}
use mathlib.Core.Path.{subst}
use pve_zfs_tool.Common.{
  suc, String, ◌≡◌, refl, sym, ap, ◌∙◌, Bool, true, false, List, [], ◌∷◌, ◌++◌, map, ltb, ◌==◌,
  string_eq, pair_eq, if◌then◌else◌, length, filter, filter-append, any, Bool-cases, inl, inr,
  arith, eq_iff,
}
use pve_zfs_tool.Common.Dict.{Dict, get}
use pve_zfs_tool.Inventory.Lineages.{
  Row, Place, Key, lineage_key, is_migrate_snap, index_rows, build_guid_index, unions_of,
  all_unions, member_keys, group_lineages,
}
use pve_zfs_tool.Inventory.UnionFind.{append_at}
use pve_zfs_tool.Inventory.UnionFind.Connected.{
  Connected, same, joined, back, through, members, members-nil, members-append_at, root,
  partition-Connected,
}

abbrev pub has_guid : String → Place → Bool
has_guid g p = p.row.guid == g

abbrev pub places_at : String → List Row → List Place
places_at host [] = []
places_at host (r ∷ rs) = record { host = host; row = r } ∷ places_at host rs

-- every snapshot of every host
abbrev pub places : List (String × List Row) → List Place
places [] = []
places ((host, rows) ∷ hosts) = places_at host rows ++ places hosts

filed :
    (b : Bool) (before later : List Place) (p : Place)
    → (if b then before ++ p ∷ [] else before) ++ later ≡ before ++ (if b then p ∷ later else later)
filed true before later p = append_assoc before (p ∷ []) later
filed false before later p = refl

listed-rows :
    (g host : String) (rows : List Row) (index : Dict String (List Place))
    → members g (index_rows host rows index)
      ≡ members g index ++ filter (has_guid g) (places_at host rows)
unfolding index_rows
listed-rows g host [] index = sym (append-nil (members g index))
listed-rows g host (r ∷ rs) index =
    let p : Place = record { host = host; row = r } in
    listed-rows g host rs (append_at r.guid p index)
    ∙ ap (λ l. l ++ filter (has_guid g) (places_at host rs)) (members-append_at g r.guid p index)
    ∙ filed (r.guid == g) (members g index) (filter (has_guid g) (places_at host rs)) p

listed :
    (g : String) (hosts : List (String × List Row)) (index : Dict String (List Place))
    → members g (build_guid_index hosts index)
      ≡ members g index ++ filter (has_guid g) (places hosts)
unfolding build_guid_index
listed g [] index = sym (append-nil (members g index))
listed g ((host, rows) ∷ hosts) index =
    listed g hosts (index_rows host rows index)
    ∙ ap (λ l. l ++ filter (has_guid g) (places hosts)) (listed-rows g host rows index)
    ∙ append_assoc (members g index) (filter (has_guid g) (places_at host rows))
        (filter (has_guid g) (places hosts))
    ∙ ap (λ l. members g index ++ l)
        (sym (filter-append (has_guid g) (places_at host rows) (places hosts)))

Memᴰ-left : {A : Type 0} {a : A} {xs : List A} (ys : List A) → Memᴰ a xs → Memᴰ a (xs ++ ys)
Memᴰ-left ys (Memᴰ.head h) = Memᴰ.head h
Memᴰ-left ys (Memᴰ.tail m) = Memᴰ.tail (Memᴰ-left ys m)

Memᴰ-right : {A : Type 0} {a : A} (xs : List A) {ys : List A} → Memᴰ a ys → Memᴰ a (xs ++ ys)
Memᴰ-right [] m = m
Memᴰ-right (x ∷ xs) m = Memᴰ.tail (Memᴰ-right xs m)

Memᴰ-map : {A B : Type 0} (f : A → B) {a : A} {xs : List A} → Memᴰ a xs → Memᴰ (f a) (map f xs)
Memᴰ-map f (Memᴰ.head h) = Memᴰ.head (ap f h)
Memᴰ-map f (Memᴰ.tail m) = Memᴰ.tail (Memᴰ-map f m)

Memᴰ-filter :
    (f : Place → Bool) (p : Place) (xs : List Place) → Memᴰ p xs → f p ≡ true → Memᴰ p (filter f xs)
Memᴰ-filter f p [] m h = elim m [ ]
Memᴰ-filter f p (x ∷ xs) (Memᴰ.head e) h = rw (sym (ap f e) ∙ h) (Memᴰ.head e)
Memᴰ-filter f p (x ∷ xs) (Memᴰ.tail m) h = elim (Bool-cases (f x)) [
  | inl t ↦ rw t (Memᴰ.tail (Memᴰ-filter f p xs m h))
  | inr u ↦ rw u (Memᴰ-filter f p xs m h)
]

members-cons :
    (g j : String) (ps : List Place) (index : Dict String (List Place))
    → members g ((j, ps) ∷ index) ≡ (if j == g then ps else members g index)
unfolding get
members-cons g j ps index = ground arith

unions_of-nil : unions_of [] ≡ []
unfolding unions_of
unions_of-nil = refl

-- the unions of a guid are among all
unions-all :
    (g : String) (index : Dict String (List Place)) (ab : Key × Key)
    → Memᴰ ab (unions_of (members g index))
    → Memᴰ ab (all_unions index)
unfolding all_unions
unions-all g [] ab m = subst (λ l. Memᴰ ab l) (ap unions_of (members-nil g) ∙ unions_of-nil) m
unions-all g ((j, ps) ∷ index) ab m =
    let here = subst (λ l. Memᴰ ab (unions_of l)) (members-cons g j ps index) m in
    elim (Bool-cases (j == g)) [
      | inl t ↦
          Memᴰ-left (all_unions index)
            (subst (λ b. Memᴰ ab (unions_of (if b then ps else members g index))) t here)
      | inr u ↦ Memᴰ-right (unions_of ps) (
          unions-all g index ab
            (subst (λ b. Memᴰ ab (unions_of (if b then ps else members g index))) u here))
    ]

unions_of-two :
    (first p q : Place) (rest : List Place)
    → any (λ p. is_migrate_snap p.row.snapshot) (first ∷ q ∷ rest) ≡ false
    → Memᴰ p (q ∷ rest)
    → Memᴰ (lineage_key first, lineage_key p) (unions_of (first ∷ q ∷ rest))
unfolding unions_of
unions_of-two first p q rest h m =
    rw (two, h) (Memᴰ-map (λ p. (lineage_key first, lineage_key p)) m)
  where
    two : ltb (length (first ∷ q ∷ rest)) 2 ≡ false
    two = ground arith

first_joined :
    (es : List (Key × Key)) (first p : Place) (rest : List Place)
    → any (λ p. is_migrate_snap p.row.snapshot) (first ∷ rest) ≡ false
    → ((ab : Key × Key) → Memᴰ ab (unions_of (first ∷ rest)) → Memᴰ ab es)
    → Memᴰ p (first ∷ rest)
    → Connected es (lineage_key first) (lineage_key p)
first_joined es first p rest h sub (Memᴰ.head e) =
    subst (λ q. Connected es (lineage_key first) (lineage_key q)) (sym e) same
first_joined es first p [] h sub (Memᴰ.tail m) = elim m [ ]
first_joined es first p (q ∷ rest) h sub (Memᴰ.tail m) =
    joined (sub (lineage_key first, lineage_key p) (unions_of-two first p q rest h m))

all_joined :
    (es : List (Key × Key)) (ps : List Place) (p q : Place)
    → any (λ p. is_migrate_snap p.row.snapshot) ps ≡ false
    → ((ab : Key × Key) → Memᴰ ab (unions_of ps) → Memᴰ ab es)
    → Memᴰ p ps
    → Memᴰ q ps
    → Connected es (lineage_key p) (lineage_key q)
all_joined es [] p q h sub m n = elim m [ ]
all_joined es (first ∷ rest) p q h sub m n =
    through (back (first_joined es first p rest h sub m)) (first_joined es first q rest h sub n)

-- the unions that the rows of every host ask for
abbrev pub unions : List (String × List Row) → List (Key × Key)
unions per_host = all_unions (build_guid_index per_host [])

-- Two places of one guid, none of whose places has the name of a migration snapshot, are
-- connected by the unions.
pub shared_guid-Connected :
    (per_host : List (String × List Row)) (p q : Place)
    → Memᴰ p (places per_host)
    → Memᴰ q (places per_host)
    → p.row.guid ≡ q.row.guid
    → any (λ x. is_migrate_snap x.row.snapshot) (filter (has_guid q.row.guid) (places per_host))
      ≡ false
    → Connected (unions per_host) (lineage_key p) (lineage_key q)
shared_guid-Connected per_host p q m n e h =
    let g = q.row.guid in
    let at_g = filter (has_guid g) (places per_host) in
    let lists : members g (build_guid_index per_host []) ≡ at_g =
      listed g per_host [] ∙ ap (λ l. l ++ at_g) (members-nil g) in
    all_joined (unions per_host) at_g p q h
      (λ ab i.
        unions-all g (build_guid_index per_host []) ab
          (subst (λ l. Memᴰ ab (unions_of l)) (sym lists) i))
      (Memᴰ-filter (has_guid g) p (places per_host) m ((eq_iff p.row.guid g).1 e))
      (Memᴰ-filter (has_guid g) q (places per_host) n ((eq_iff g g).1 refl))

-- Two snapshots of one guid, none of whose places has the name of a migration snapshot, belong to
-- datasets of one lineage: the datasets filed with the first one are, in the order of their first
-- rows, those whose root is the first one's, and the second's root is that one.
pub group_lineages-shared_guid :
    (per_host : List (String × List Row)) (p q : Place)
    → Memᴰ p (places per_host)
    → Memᴰ q (places per_host)
    → p.row.guid ≡ q.row.guid
    → any (λ x. is_migrate_snap x.row.snapshot) (filter (has_guid q.row.guid) (places per_host))
      ≡ false
    → (members (root (unions per_host) (lineage_key p)) (group_lineages per_host)
        ≡ filter
            (λ k. root (unions per_host) k == root (unions per_host) (lineage_key p))
            (member_keys per_host []))
      × ((root (unions per_host) (lineage_key q) == root (unions per_host) (lineage_key p)) ≡ true)
unfolding group_lineages
group_lineages-shared_guid per_host p q m n e h =
    let es = unions per_host in
    let parts =
      partition-Connected (suc (length es)) (member_keys per_host []) es (lineage_key p)
        (lineage_key q) (omega arith) in
    (parts.0, parts.1.1 (back (shared_guid-Connected per_host p q m n e h)))
