-- ===== src/Ssh/Rotation/Lockout.antt =====
-- Which keys a host lets in after a rotation of the SSH keys by app/ssh_manager.py.
use pve_zfs_tool.Common.{
  ℕ, zero, suc, String, ◌≡◌, ◌≢◌, refl, Bool, true, false, not, ◌||◌, Option, none, some, List, [],
  ◌∷◌, ◌==◌, string_eq, arith, if◌then◌else◌, contains, all, eq_iff, sym, ap, ◌∙◌,
}
use mathlib.Core.Path.{subst}
use pve_zfs_tool.Common.Dict.{get-put}
use pve_zfs_tool.Ssh.Rotation.{
  Files, Authorized, Site, Effect, applied, unreported, unapplied, Outside, Report, swap_failed,
  deploy_failed, local_swap_failed, rotated_locally, not_generated, rotated, KeyFile, file_of,
  remove_key, on_host, deploy_all, roll_back, swap_steps, run_steps, login, verify_one, verify_all,
  after_deploy, deploy_and_swap, rotate_from, old_of, old_pub, rotate_ssh_keys,
}
use pve_zfs_tool.Ssh.Rotation.Laws.{
  accepts, ends, deploy_all-keeps, deploy_all-adds, roll_back-others, verify_all-others,
}

-- A swap in which no step raises puts the new key in place.
swap-key :
    (raises : Option ℕ) (f : Files)
    → (run_steps raises swap_steps f).1 ≡ true
    → (run_steps raises swap_steps f).0.key ≡ f.key_new
unfolding run_steps
swap-key none f ok = refl
swap-key (some zero) f ok = ground arith
swap-key (some (suc zero)) f ok = ground arith
swap-key (some (suc (suc zero))) f ok = ground arith
swap-key (some (suc (suc (suc zero)))) f ok = ground arith
swap-key (some (suc (suc (suc (suc zero))))) f ok = ground arith
swap-key (some (suc (suc (suc (suc (suc zero)))))) f ok = ground arith
swap-key (some (suc (suc (suc (suc (suc (suc zero))))))) f ok = ground arith
swap-key (some (suc (suc (suc (suc (suc (suc (suc n)))))))) f ok = refl

elsewhere :
    (e : Effect) (f : KeyFile → KeyFile × Bool) (h : String) (auth : Authorized) (k : String)
    → (h == k) ≡ false
    → file_of k (on_host e f h auth).0 ≡ file_of k auth
unfolding on_host
elsewhere applied f h auth k ne = ground (arith, get-put k h (f (file_of h auth)).0 auth)
elsewhere unreported f h auth k ne = ground (arith, get-put k h (f (file_of h auth)).0 auth)
elsewhere unapplied f h auth k ne = refl

-- a host that lets the old key in, but for one that was reached to verify the new key
abbrev pub keeps_old : Outside → String → String → Authorized → Bool
keeps_old o old k auth = o.reachable k || accepts old k auth

verify_one-keeps_old :
    (o : Outside) (f : Files) (old h : String) (auth : Authorized) (k : String)
    → keeps_old o old k auth ≡ true
    → keeps_old o old k (verify_one o f old h auth).0 ≡ true
unfolding verify_one
verify_one-keeps_old o f old h auth k a =
    ground (arith, eq_iff h k, elsewhere (o.clean h) (remove_key old) h auth k)

verify_all-keeps_old :
    (o : Outside) (f : Files) (old : String) (hs : List String) (auth : Authorized) (k : String)
    → keeps_old o old k auth ≡ true
    → keeps_old o old k (verify_all o f old hs auth).0 ≡ true
unfolding verify_all
verify_all-keeps_old o f old [] auth k a = a
verify_all-keeps_old o f old (h ∷ hs) auth k a =
    verify_all-keeps_old o f old hs (verify_one o f old h auth).0 k
      (verify_one-keeps_old o f old h auth k a)

-- where the swap of the local files raised: both keys stand on the host; else: the tool's key of
-- the end is let in, and the old one too unless the host was reached to verify the new one
abbrev pub Reached : Outside → String → String → String → Site × Report → Type 0
Reached o old new h (s, swap_failed rs) =
    (accepts old h s.authorized ≡ true) × (accepts new h s.authorized ≡ true)
Reached o old new h (s, local_swap_failed) = ⊥
Reached o old new h (s, rotated_locally) = ⊥
Reached o old new h (s, not_generated) = ⊥
Reached o old new h (s, deploy_failed rs) =
    (login s.files s.authorized h ≡ true) × (keeps_old o old h s.authorized ≡ true)
Reached o old new h (s, rotated v vs) =
    (login s.files s.authorized h ≡ true) × (keeps_old o old h s.authorized ≡ true)

either-Reached :
    (t : Bool) (o : Outside) (old new h : String) (x y : Site × Report)
    → (t ≡ true → Reached o old new h x)
    → (t ≡ false → Reached o old new h y)
    → Reached o old new h (if t then x else y)
either-Reached true o old new h x y g k = g refl
either-Reached false o old new h x y g k = k refl

after_deploy-Reached :
    (o : Outside) (old new h : String) (hosts : List String) (rs : List (String × Bool))
    (swapped : Files × Bool) (auth : Authorized)
    → new ≢ old
    → (swapped.1 ≡ true → swapped.0.key ≡ some new)
    → accepts old h auth ≡ true
    → accepts new h auth ≡ true
    → Reached o old new h (after_deploy o old hosts rs swapped auth)
unfolding after_deploy
after_deploy-Reached o old new h hosts rs (f, false) auth ne k a b = (a, b)
after_deploy-Reached o old new h hosts rs (f, true) auth ne k a b = (
  ground (arith, k refl, verify_all-others o f old hosts auth new h ne),
  verify_all-keeps_old o f old hosts auth h (ground arith),
)

deploy_and_swap-Reached :
    (o : Outside) (old new h : String) (hosts : List String) (f : Files) (auth : Authorized)
    → new ≢ old
    → f.key ≡ some old
    → f.key_new ≡ some new
    → contains h hosts ≡ true
    → ends h auth ≡ true
    → accepts old h auth ≡ true
    → Reached o old new h (deploy_and_swap o old new hosts f auth)
unfolding deploy_and_swap
deploy_and_swap-Reached o old new h hosts f auth ne k kn c n a =
    let auth' = (deploy_all o new hosts auth).0 in
    let rs = (deploy_all o new hosts auth).1 in
    let a' = deploy_all-keeps o new hosts auth old h n a in
    let back = roll_back-others o new rs auth' old h λ q. ne (sym q) in
    either-Reached (not (all (λ r. r.1) rs)) o old new h
      (
        record {
          files = record f { key_new = none; pub_new = none };
          authorized = roll_back o new rs auth';
        },
        deploy_failed rs,
      )
      (after_deploy o old hosts rs (run_steps o.swap_fails swap_steps f) auth')
      (λ _. (ground (arith, back), ground (arith, back)))
      λ ok.
        after_deploy-Reached o old new h hosts rs (run_steps o.swap_fails swap_steps f) auth' ne
          (λ s. swap-key o.swap_fails f s ∙ kn) a'
          (deploy_all-adds o new hosts auth h n (ground arith) c)

rotate_from-Reached :
    (o : Outside) (old new h : String) (hosts : List String) (site : Site)
    → new ≢ old
    → site.files.key ≡ some old
    → contains h hosts ≡ true
    → ends h site.authorized ≡ true
    → accepts old h site.authorized ≡ true
    → Reached o old new h (rotate_from (some new) o old hosts site)
unfolding rotate_from
rotate_from-Reached o old new h [] site ne k c n a = ground arith
rotate_from-Reached o old new h (g ∷ hs) site ne k c n a =
    let f : Files = record site.files { key_new = some new; pub_new = some new } in
    deploy_and_swap-Reached o old new h (g ∷ hs) f site.authorized ne k refl c n a

-- What holds of a registered host that lets the old key in before a rotation, and whose
-- authorized_keys ends in a newline, if the new key differs from the old one: where the rotation
-- comes to its end or the deployment fails on a host, it lets in the key that the tool then has,
-- and it still lets the old key in unless it could be reached to verify the new one; where the swap
-- of the local files fails, it lets both keys in.
pub no_lockout :
    (o : Outside) (old new h : String) (hosts : List String) (site : Site)
    → o.generated ≡ some new
    → new ≢ old
    → site.files.key ≡ some old
    → site.files.pub_key ≡ some old
    → contains h hosts ≡ true
    → ends h site.authorized ≡ true
    → accepts old h site.authorized ≡ true
    → Reached o old new h (rotate_ssh_keys o hosts site)
unfolding rotate_ssh_keys
no_lockout o old new h hosts site g ne k p c n a =
    let cleared : Site = record site {
      files = record site.files { key_new = none; pub_new = none };
    } in
    let known : old_pub site.files ≡ old = ap old_of p in
    subst (λ x. Reached o old new h (rotate_from x o (old_pub site.files) hosts cleared)) (sym g)
      (subst (λ x. Reached o old new h (rotate_from (some new) o x hosts cleared)) (sym known)
        (rotate_from-Reached o old new h hosts cleared ne k c n a))
