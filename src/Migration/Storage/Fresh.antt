-- ===== src/Migration/Storage/Fresh.antt =====
-- The loop of `suggest_storage_id` of app/migrate.py ends with a free name.
use Prim.Native.String.{[] as empty, ◌∷◌ as ◌:::◌, ◌++◌ as ◌<>◌}
use Prim.Native.String.append
use pve_zfs_tool.Common.{
  ℕ, zero, suc, ◌+◌, ◌≤◌, ◌<◌, String, ◌≡◌, ◌≢◌, refl, sym, ap, ◌∙◌, true, false, not, some, List,
  [], ◌∷◌, ◌==◌, string_eq, arith, contains, length, filter, length-filter, eq_iff, Bool-cases, inl,
  inr,
}
use pve_zfs_tool.Common.Decimal.{str, str_inj}
use pve_zfs_tool.Common.Scan.{drop_as}
use pve_zfs_tool.Migration.Storage.{candidate, first_free, storage_base, suggest_storage_id}

drop_as-append : (p t : String) → drop_as p (p <> t) ≡ t
unfolding drop_as
drop_as-append empty t = append.nil t
drop_as-append (c ::: p) t = ap (drop_as (c ::: p)) (append.cons c p t) ∙ drop_as-append p t

drop_as-all : (p : String) → drop_as p p ≡ ""
unfolding drop_as
drop_as-all empty = refl
drop_as-all (c ::: p) = drop_as-all p

-- what stands behind the base
abbrev tail_of : ℕ → String
tail_of zero = ""
tail_of (suc n) = "-" ::: str (n + 2)

drop_as-candidate : (base : String) (n : ℕ) → drop_as base (candidate base n) ≡ tail_of n
unfolding candidate
drop_as-candidate base zero = drop_as-all base
drop_as-candidate base (suc n) = drop_as-append base ("-" ::: str (n + 2))

tail_of_inj : (m n : ℕ) → tail_of m ≡ tail_of n → m ≡ n
unfolding drop_as str
tail_of_inj zero zero h = refl
tail_of_inj zero (suc n) h = cc
tail_of_inj (suc m) zero h = cc
tail_of_inj (suc m) (suc n) h = omega (arith, str_inj (m + 2) (n + 2) (ap (drop_as "-") h))

candidate_inj : (base : String) (m n : ℕ) → candidate base m ≡ candidate base n → m ≡ n
candidate_inj base m n h =
    tail_of_inj m n
      (sym (drop_as-candidate base m) ∙ ap (drop_as base) h ∙ drop_as-candidate base n)

-- the names other than `c`
abbrev without : String → List String → List String
without c = filter λ x. not (x == c)

length-without :
    (c : String) (xs : List String) → contains c xs ≡ true → length (without c xs) < length xs
length-without c [] h = ground arith
length-without c (x ∷ xs) h =
    ground
      (arith, length-without c xs, eq_iff c x, eq_iff x c, length-filter (λ y. not (y == c)) xs)

contains-without :
    (c d : String) (xs : List String) → d ≢ c → contains d (without c xs) ≡ contains d xs
contains-without c d [] ne = refl
contains-without c d (x ∷ xs) ne =
    ground (arith, contains-without c d xs ne, eq_iff d x, eq_iff x c, eq_iff d c)

-- the first free name from the `n`th candidate on, where `rest` has the later candidates of `ex`
first_free-ends :
    (fuel n : ℕ) (base : String) (ex rest : List String)
    → length rest < fuel
    → ((j : ℕ) → n ≤ j → contains (candidate base j) ex ≡ contains (candidate base j) rest)
    → (c : String) × (first_free fuel n base ex ≡ some c) × (contains c ex ≡ false)
unfolding first_free
first_free-ends zero n base ex rest l same = absurd (omega arith)
first_free-ends (suc fuel) n base ex rest l same =
    let c = candidate base n in
    elim (Bool-cases (contains c ex)) [
      | inr free ↦ (c, ground arith, free)
      | inl taken ↦
          let less = length-without c rest (sym (same n (omega arith)) ∙ taken) in
          let (d, found, free) =
            first_free-ends fuel (suc n) base ex (without c rest) (omega arith) λ j le.
              same j (omega arith)
              ∙ sym (
                  contains-without c (candidate base j) rest
                    λ q. absurd (omega (arith, candidate_inj base j n q))) in
          (d, ground arith, free)
    ]

-- The loop that looks for a name ends after at most one round more than there are existing
-- names, and the name it proposes is none of them.
pub suggest_storage_id-free :
    (fuel : ℕ) (dataset : String) (existing : List String)
    → length existing < fuel
    → (c : String) × (suggest_storage_id fuel dataset existing ≡ some c)
      × (contains c existing ≡ false)
unfolding suggest_storage_id
suggest_storage_id-free fuel dataset existing l =
    first_free-ends fuel 0 (storage_base dataset) existing existing l λ j le. refl
