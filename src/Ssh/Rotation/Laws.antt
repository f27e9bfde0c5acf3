-- ===== src/Ssh/Rotation/Laws.antt =====
-- What a rotation of the SSH keys by app/ssh_manager.py leaves on the hosts, whatever fails.
use pve_zfs_tool.Common.{
  filter, not, ◌==◌, String, ◌≡◌, ◌≢◌, refl, Bool, true, List, [], ◌∷◌, string_eq, arith, contains,
  contains-append, all, eq_iff, beq_refl,
}
use pve_zfs_tool.Common.Dict.{get-put}
use pve_zfs_tool.Ssh.Rotation.{
  Files, KeyFile, Authorized, Effect, applied, unreported, unapplied, Outside, file_of, lines_of,
  append_key, remove_key, on_host, deploy_all, roll_back, verify_one, verify_all,
}

-- whether the host lets the key in
abbrev pub accepts : String → String → Authorized → Bool
accepts x h auth = contains x (lines_of h auth)

-- whether the host's file ends in a newline
abbrev pub ends : String → Authorized → Bool
ends h auth = (file_of h auth).ended

append_key-keeps :
    (x key : String) (f : KeyFile)
    → f.ended ≡ true
    → contains x f.lines ≡ true
    → contains x (append_key key f).0.lines ≡ true
unfolding append_key
append_key-keeps x key f e h = ground (arith, contains-append x f.lines (key ∷ []))

append_key-adds :
    (key : String) (f : KeyFile) → f.ended ≡ true → contains key (append_key key f).0.lines ≡ true
unfolding append_key
append_key-adds key f e = ground (arith, contains-append key f.lines (key ∷ []), beq_refl key)

append_key_ends : (key : String) (f : KeyFile) → f.ended ≡ true → (append_key key f).0.ended ≡ true
unfolding append_key
append_key_ends key f e = ground arith

others-contains :
    (x key : String) (ls : List String)
    → x ≢ key
    → contains x (filter (λ l. not (l == key)) ls) ≡ contains x ls
others-contains x key [] ne = refl
others-contains x key (l ∷ ls) ne =
    ground (arith, others-contains x key ls ne, eq_iff x l, eq_iff l key, eq_iff x key)

remove_key-others :
    (x key : String) (f : KeyFile)
    → x ≢ key
    → contains x (remove_key key f).0.lines ≡ contains x f.lines
unfolding remove_key
remove_key-others x key f ne = ground (arith, others-contains x key f.lines ne)

deploy-keeps :
    (e : Effect) (key h : String) (auth : Authorized) (x k : String)
    → ends k auth ≡ true
    → accepts x k auth ≡ true
    → accepts x k (on_host e (append_key key) h auth).0 ≡ true
unfolding on_host
deploy-keeps applied key h auth x k n a = ground (
  arith,
  get-put k h (append_key key (file_of h auth)).0 auth,
  append_key-keeps x key (file_of h auth),
  eq_iff h k,
)
deploy-keeps unreported key h auth x k n a = ground (
  arith,
  get-put k h (append_key key (file_of h auth)).0 auth,
  append_key-keeps x key (file_of h auth),
  eq_iff h k,
)
deploy-keeps unapplied key h auth x k n a = a

deploy-ends :
    (e : Effect) (key h : String) (auth : Authorized) (k : String)
    → ends k auth ≡ true
    → ends k (on_host e (append_key key) h auth).0 ≡ true
unfolding on_host
deploy-ends applied key h auth k n = ground (
  arith,
  get-put k h (append_key key (file_of h auth)).0 auth,
  append_key_ends key (file_of h auth),
  eq_iff h k,
)
deploy-ends unreported key h auth k n = ground (
  arith,
  get-put k h (append_key key (file_of h auth)).0 auth,
  append_key_ends key (file_of h auth),
  eq_iff h k,
)
deploy-ends unapplied key h auth k n = n

deploy-adds :
    (e : Effect) (key h : String) (auth : Authorized)
    → ends h auth ≡ true
    → (on_host e (append_key key) h auth).1 ≡ true
    → accepts key h (on_host e (append_key key) h auth).0 ≡ true
unfolding on_host
deploy-adds applied key h auth n ok = ground (
  arith,
  get-put h h (append_key key (file_of h auth)).0 auth,
  append_key-adds key (file_of h auth),
  beq_refl h,
)
deploy-adds unreported key h auth n ok = ground arith
deploy-adds unapplied key h auth n ok = ground arith

removal-others :
    (e : Effect) (key h : String) (auth : Authorized) (x k : String)
    → x ≢ key
    → accepts x k (on_host e (remove_key key) h auth).0 ≡ accepts x k auth
unfolding on_host
removal-others applied key h auth x k ne = ground (
  arith,
  get-put k h (remove_key key (file_of h auth)).0 auth,
  remove_key-others x key (file_of h auth) ne,
  eq_iff h k,
)
removal-others unreported key h auth x k ne = ground (
  arith,
  get-put k h (remove_key key (file_of h auth)).0 auth,
  remove_key-others x key (file_of h auth) ne,
  eq_iff h k,
)
removal-others unapplied key h auth x k ne = refl

pub deploy_all-keeps :
    (o : Outside) (new : String) (hs : List String) (auth : Authorized) (x k : String)
    → ends k auth ≡ true
    → accepts x k auth ≡ true
    → accepts x k (deploy_all o new hs auth).0 ≡ true
unfolding deploy_all
deploy_all-keeps o new [] auth x k n a = a
deploy_all-keeps o new (h ∷ hs) auth x k n a =
    deploy_all-keeps o new hs (on_host (o.deploy h) (append_key new) h auth).0 x k
      (deploy-ends (o.deploy h) new h auth k n) (deploy-keeps (o.deploy h) new h auth x k n a)

-- Where every host reported the new key, each of them lets it in.
pub deploy_all-adds :
    (o : Outside) (new : String) (hs : List String) (auth : Authorized) (k : String)
    → ends k auth ≡ true
    → all (λ r. r.1) (deploy_all o new hs auth).1 ≡ true
    → contains k hs ≡ true
    → accepts new k (deploy_all o new hs auth).0 ≡ true
unfolding deploy_all
deploy_all-adds o new [] auth k n ok c = ground arith
deploy_all-adds o new (h ∷ hs) auth k n ok c =
    let auth' = (on_host (o.deploy h) (append_key new) h auth).0 in
    ground (
      arith,
      eq_iff k h,
      deploy-adds (o.deploy h) new h auth,
      deploy-ends (o.deploy h) new h auth k n,
      deploy_all-keeps o new hs auth' new k,
      deploy_all-adds o new hs auth' k,
    )

pub roll_back-others :
    (o : Outside) (new : String) (rs : List (String × Bool)) (auth : Authorized) (x k : String)
    → x ≢ new
    → accepts x k (roll_back o new rs auth) ≡ accepts x k auth
unfolding roll_back
roll_back-others o new [] auth x k ne = refl
roll_back-others o new ((h, d) ∷ rs) auth x k ne =
    let auth' = (on_host (o.withdraw h) (remove_key new) h auth).0 in
    ground (
      arith,
      roll_back-others o new rs auth' x k ne,
      roll_back-others o new rs auth x k ne,
      removal-others (o.withdraw h) new h auth x k ne,
    )

verify_one-others :
    (o : Outside) (f : Files) (old h : String) (auth : Authorized) (x k : String)
    → x ≢ old
    → accepts x k (verify_one o f old h auth).0 ≡ accepts x k auth
unfolding verify_one
verify_one-others o f old h auth x k ne =
    ground (arith, removal-others (o.clean h) old h auth x k ne)

pub verify_all-others :
    (o : Outside) (f : Files) (old : String) (hs : List String) (auth : Authorized) (x k : String)
    → x ≢ old
    → accepts x k (verify_all o f old hs auth).0 ≡ accepts x k auth
unfolding verify_all
verify_all-others o f old [] auth x k ne = refl
verify_all-others o f old (h ∷ hs) auth x k ne = ground (
  arith,
  verify_all-others o f old hs (verify_one o f old h auth).0 x k ne,
  verify_one-others o f old h auth x k ne,
)
