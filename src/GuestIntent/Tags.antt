-- ===== src/GuestIntent/Tags.antt =====
-- What a guest declares after `set_exception` of app/guest_intent.py.
use pve_zfs_tool.Common.{
  String, ◌≡◌, refl, sym, ◌∙◌, ap, Bool, true, false, not, ◌&&◌, ◌||◌, none, some, List, [], ◌∷◌,
  ◌++◌, arith, ◌==◌, string_eq, pair_eq, eq_iff, if◌then◌else◌, all, filter, beq_refl,
}
use pve_zfs_tool.Common.Dict.{get, get-put, get-remove}
use pve_zfs_tool.Common.Case.{
  same_ci, same_ci_trans, same_ci_sym, same_ci_refl, same_ci_empty, ci_le,
}
use pve_zfs_tool.Common.Sort.{sorted, all-sorted}
use pve_zfs_tool.GuestIntent.{
  Names, Kinds, stored, Flags, Reason, World, Outside, has_tag, apply_tag, exceptions_from_tags,
  same_all, same_tags, new_tags, save_reason, drop_reason, record_reason, any_kind, tags_of,
  set_exception,
}

has_tag-append :
    (t : String) (xs ys : List String) → has_tag t (xs ++ ys) ≡ (has_tag t xs || has_tag t ys)
has_tag-append t [] ys = refl
has_tag-append t (x ∷ xs) ys = ground (arith, has_tag-append t xs ys)

has_tag-kept :
    (t tag : String) (xs : List String)
    → (t == "") ≡ false
    → has_tag t (filter (λ x. not (x == "") && not (same_ci x tag)) xs)
      ≡ (not (same_ci t tag) && has_tag t xs)
has_tag-kept t tag [] h = ground arith
has_tag-kept t tag (x ∷ xs) h = ground (
  arith,
  has_tag-kept t tag xs h,
  same_ci_trans x t tag,
  same_ci_empty t,
  eq_iff x "",
  eq_iff t "",
)

has_tag-apply_tag :
    (t tag : String) (xs : List String) (enable : Bool)
    → (t == "") ≡ false
    → has_tag t (apply_tag xs tag enable) ≡ (if same_ci t tag then enable else has_tag t xs)
unfolding apply_tag
has_tag-apply_tag t tag xs enable h =
    let kept = filter (λ x. not (x == "") && not (same_ci x tag)) xs in
    ground (arith, has_tag-kept t tag xs h, has_tag-append t kept (tag ∷ []), same_ci_sym t tag)

has_tag-not-all :
    (t : String) (xs : List String) → has_tag t xs ≡ not (all (λ x. not (same_ci x t)) xs)
has_tag-not-all t [] = refl
has_tag-not-all t (x ∷ xs) = ground (arith, has_tag-not-all t xs)

has_tag-sorted : (t : String) (xs : List String) → has_tag t (sorted ci_le xs) ≡ has_tag t xs
has_tag-sorted t xs =
    has_tag-not-all t (sorted ci_le xs)
    ∙ ap not (all-sorted ci_le (λ x. not (same_ci x t)) xs)
    ∙ sym (has_tag-not-all t xs)

has_tag-same_all :
    (t : String) (xs ys : List String) → same_all xs ys ≡ true → has_tag t xs ≡ has_tag t ys
unfolding same_all
has_tag-same_all t [] [] h = refl
has_tag-same_all t [] (y ∷ ys) h = cc
has_tag-same_all t (x ∷ xs) [] h = cc
has_tag-same_all t (x ∷ xs) (y ∷ ys) h =
    ground (arith, has_tag-same_all t xs ys, same_ci_trans x y t)

has_tag-same_tags :
    (t : String) (xs ys : List String) → same_tags xs ys ≡ true → has_tag t xs ≡ has_tag t ys
has_tag-same_tags t xs ys h =
    sym (has_tag-sorted t xs)
    ∙ has_tag-same_all t (sorted ci_le xs) (sorted ci_le ys) h
    ∙ has_tag-sorted t ys

-- the tags after a call that succeeds
unfoldable after : Names → Kinds → List String → List String
after names kinds cur =
    if same_tags (new_tags names kinds cur) cur then cur else new_tags names kinds cur

has_tag-after :
    (t : String) (names : Names) (kinds : Kinds) (cur : List String)
    → (t == "") ≡ false
    → has_tag t (after names kinds cur) ≡ (
        if same_ci t names.replication
        then kinds.replication
        else if same_ci t names.backup
        then kinds.backup
        else has_tag t cur)
unfolding after new_tags
has_tag-after t names kinds cur h =
    let once = apply_tag cur names.backup kinds.backup in
    ground (
      arith,
      has_tag-apply_tag t names.replication once kinds.replication h,
      has_tag-apply_tag t names.backup cur kinds.backup h,
      has_tag-same_tags t (apply_tag once names.replication kinds.replication) cur,
    )

tags_of-set_exception :
    (o : Outside) (names : Names) (host vmid : String) (rec : Reason) (w : World)
    → (o.exists && o.readable && o.writable) ≡ true
    → tags_of vmid (set_exception o names host vmid true rec w).0
      ≡ after names rec.kinds (tags_of vmid w)
unfolding set_exception after record_reason save_reason drop_reason
tags_of-set_exception o names host vmid rec w h =
    ground (
      arith,
      get-put vmid vmid (new_tags names rec.kinds (tags_of vmid w)) w.tags,
      eq_iff vmid vmid,
    )

reason-set_exception :
    (o : Outside) (names : Names) (host vmid : String) (rec : Reason) (w : World)
    → (o.exists && o.readable && o.writable) ≡ true
    → get (host, vmid) (set_exception o names host vmid true rec w).0.reasons
      ≡ (if any_kind rec.kinds then some (stored rec) else none)
unfolding set_exception record_reason save_reason drop_reason
reason-set_exception o names host vmid rec w h = ground (
  arith,
  get-put (host, vmid) (host, vmid) (stored rec) w.reasons,
  get-remove (host, vmid) (host, vmid) w.reasons,
  beq_refl {A = String × String} (host, vmid),
)

abbrev pub flags_of : Kinds → Flags
flags_of k = record { no_backup = k.backup; no_replication = k.replication }

-- If the host answers and takes the write, and the two tags are texts that differ in lower case,
-- the guest declares afterwards exactly the kinds that were asked for, and the reason is on record,
-- stripped and cut to its length, exactly if there is such a kind.
pub set_exception-declared :
    (o : Outside) (names : Names) (host vmid : String) (rec : Reason) (w : World)
    → (names.backup == "") ≡ false
    → (names.replication == "") ≡ false
    → same_ci names.backup names.replication ≡ false
    → (o.exists && o.readable && o.writable) ≡ true
    → (exceptions_from_tags names
          ((vmid, tags_of vmid (set_exception o names host vmid true rec w).0) ∷ [])
        ≡ (if any_kind rec.kinds then (vmid, flags_of rec.kinds) ∷ [] else []))
      × (get (host, vmid) (set_exception o names host vmid true rec w).0.reasons
          ≡ (if any_kind rec.kinds then some (stored rec) else none))
unfolding exceptions_from_tags
set_exception-declared o names host vmid rec w nb nr ne h = (
  ground (
    arith,
    tags_of-set_exception o names host vmid rec w h,
    has_tag-after names.backup names rec.kinds (tags_of vmid w) nb,
    has_tag-after names.replication names rec.kinds (tags_of vmid w) nr,
    same_ci_refl names.backup,
    same_ci_refl names.replication,
  ),
  reason-set_exception o names host vmid rec w h,
)
