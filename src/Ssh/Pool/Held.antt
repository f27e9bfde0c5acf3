-- ===== src/Ssh/Pool/Held.antt =====
-- The clients that the connection pool of app/ssh_manager.py holds, and how its changes count.
use pve_zfs_tool.Common.{
  ℕ, ◌+◌, ◌≡◌, refl, true, ◌↔◌, ◌≤◌, none, some, [], ◌∷◌, arith, nat_beq, ◌==◌, nat_eq, string_eq,
  pair_eq, pair_beq_iff, if◌then◌else◌,
}
use pve_zfs_tool.Common.Dict.{Dict, get, put, remove, get-put, get-remove}
use pve_zfs_tool.Ssh.{Key}
use pve_zfs_tool.Ssh.Pool.{Entry}

abbrev pub here : ℕ → Entry → ℕ
here c e = if nat_beq e.client c then 1 else 0

-- the entries of the pool with client `c`
abbrev pub held : ℕ → Dict Key Entry → ℕ
held c [] = 0
held c ((k, e) ∷ m) = here c e + held c m

-- every key stands once
abbrev pub Unique : Dict Key Entry → Type 0
Unique [] = Unit
Unique ((k, e) ∷ m) = (get k m ≡ none) × Unique m

key_iff : (j k : Key) → (j == k ≡ true) ↔ (j ≡ k)
key_iff j k = pair_beq_iff pair_eq string_eq j k

pub held-put_new :
    (c : ℕ) (k : Key) (e : Entry) (m : Dict Key Entry)
    → get k m ≡ none
    → held c (put k e m) ≡ held c m + here c e
unfolding get put
held-put_new c k e [] h = omega arith
held-put_new c k e ((j, d) ∷ m) h = ground (arith, held-put_new c k e m)

pub held-put_same :
    (c : ℕ) (k : Key) (d e : Entry) (m : Dict Key Entry)
    → get k m ≡ some d
    → e.client ≡ d.client
    → held c (put k e m) ≡ held c m
unfolding get put
held-put_same c k d e [] h q = ground arith
held-put_same c k d e ((j, f) ∷ m) h q = ground (arith, held-put_same c k d e m)

remove-none : (k : Key) (m : Dict Key Entry) → get k m ≡ none → remove k m ≡ m
unfolding get remove
remove-none k [] h = refl
remove-none k ((j, d) ∷ m) h = ground (arith, remove-none k m)

pub held-remove :
    (c : ℕ) (k : Key) (e : Entry) (m : Dict Key Entry)
    → Unique m
    → get k m ≡ some e
    → held c m ≡ here c e + held c (remove k m)
unfolding get remove
held-remove c k e [] u h = ground arith
held-remove c k e ((j, d) ∷ m) u h =
    ground (arith, held-remove c k e m u.1, remove-none k m, key_iff j k)

pub put-Unique : (k : Key) (e : Entry) (m : Dict Key Entry) → Unique m → Unique (put k e m)
unfolding put get
put-Unique k e [] u = (refl, tt)
put-Unique k e ((j, d) ∷ m) u =
    ground (arith, put-Unique k e m u.1, get-put j k e m, key_iff j k, key_iff k j)

pub remove-Unique : (k : Key) (m : Dict Key Entry) → Unique m → Unique (remove k m)
unfolding remove
remove-Unique k [] u = tt
remove-Unique k ((j, d) ∷ m) u = ground (arith, remove-Unique k m u.1, get-remove j k m)

-- A pool that answers with an entry holds its client.
pub held-get : (k : Key) (e : Entry) (m : Dict Key Entry) → get k m ≡ some e → 1 ≤ held e.client m
unfolding get
held-get k e [] h = ground arith
held-get k e ((j, d) ∷ m) h = ground (arith, held-get k e m)
