-- ===== src/Ssh/Rotation.antt =====
-- `rotate_ssh_keys` of app/ssh_manager.py. A key pair is named by its public key. What ssh-keygen,
-- the hosts' shells and the file system do is an argument; a host lets the tool in by the key of
-- the file SSH_KEY if that key stands in its authorized_keys.
pub mod Laws
pub mod Lockout
use Prim.Native.String.{◌++◌ as ◌<>◌}
use pve_zfs_tool.Common.{
  ℕ, zero, suc, String, Bool, true, false, not, ◌&&◌, Option, none, some, List, [], ◌∷◌, ◌++◌, ◌==◌,
  string_eq, if◌then◌else◌, contains, filter, all,
}
use pve_zfs_tool.Common.Dict.{Dict, get, put}

-- the key files of the tool: SSH_KEY, its copy .old, and the new key, each with its .pub
pub record Files : Type 0 where
  pub key : Option String
  pub key_old : Option String
  pub key_new : Option String
  pub pub_key : Option String
  pub pub_old : Option String
  pub pub_new : Option String

-- the lines of an authorized_keys, and whether the last one ends in a newline
pub record KeyFile : Type 0 where
  pub lines : List String
  pub ended : Bool

-- authorized_keys by host
abbrev pub Authorized : Type 0
Authorized = Dict String KeyFile

pub record Site : Type 0 where
  pub files : Files
  pub authorized : Authorized

-- how a command on a host ends: it ran, it ran without the tool learning so, or it did not run
pub data Effect : Type 0 where
  applied unreported unapplied : Effect

pub record Outside : Type 0 where
  pub generated : Option String  -- the new public key, none where ssh-keygen fails
  pub deploy : String → Effect
  pub withdraw : String → Effect
  pub reachable : String → Bool
  pub clean : String → Effect
  pub swap_fails : Option ℕ  -- the step of the swap that raises

-- `verify` and `cleanup` of a host's result
pub record Verified : Type 0 where
  pub host : String
  pub verify : Bool
  pub cleanup : Bool

pub data Report : Type 0 where
  not_generated : Report
  local_swap_failed : Report
  rotated_locally : Report
  deploy_failed : List (String × Bool) → Report
  swap_failed : List (String × Bool) → Report
  rotated : Bool → List Verified → Report

-- the file, after `touch`
abbrev pub file_of : String → Authorized → KeyFile
file_of h auth = elim (get h auth) [ none ↦ record { lines = []; ended = true } | some f ↦ f ]

abbrev pub lines_of : String → Authorized → List String
lines_of h auth = (file_of h auth).lines

-- `echo key >>` behind a last line that has no newline
unfoldable pub glue : String → List String → List String
glue key [] = key ∷ []
glue key (l ∷ []) = (l <> key) ∷ []
glue key (l ∷ m ∷ ls) = l ∷ glue key (m ∷ ls)

-- the command of `_append_authorized_key` on the file, and whether it succeeds
unfoldable pub append_key : String → KeyFile → KeyFile × Bool
append_key key f =
    let appended = if f.ended then f.lines ++ key ∷ [] else glue key f.lines in
    (if contains key f.lines then f else record { lines = appended; ended = true }, true)

-- the command of `_remove_authorized_key`: where no other line is left, `grep -v` fails and the
-- file stays
unfoldable pub remove_key : String → KeyFile → KeyFile × Bool
remove_key key f =
    let others = filter (λ l. not (l == key)) f.lines in
    if not (contains key f.lines) then (f, true) else elim others [
      | [] ↦ (f, false)
      | l ∷ rest ↦ (record { lines = l ∷ rest; ended = true }, true)
    ]

-- a command that changes the file of host `h`, and whether it is reported as a success
unfoldable pub on_host :
    Effect → (KeyFile → KeyFile × Bool) → String → Authorized → Authorized × Bool
on_host applied f h auth = let (file, ok) = f (file_of h auth) in (put h file auth, ok)
on_host unreported f h auth = (put h (f (file_of h auth)).0 auth, false)
on_host unapplied f h auth = (auth, false)

-- step 2: the new key to every host, and whether each reported it
unfoldable pub deploy_all :
    Outside → String → List String → Authorized → Authorized × List (String × Bool)
deploy_all o new [] auth = (auth, [])
deploy_all o new (h ∷ hs) auth =
    let (auth', ok) = on_host (o.deploy h) (append_key new) h auth in
    let (auth'', results) = deploy_all o new hs auth' in (auth'', (h, ok) ∷ results)

-- the roll back: the new key off the hosts that reported it
unfoldable pub roll_back : Outside → String → List (String × Bool) → Authorized → Authorized
roll_back o new [] auth = auth
roll_back o new ((h, deployed) ∷ results) auth =
    roll_back o new results
      (if deployed then (on_host (o.withdraw h) (remove_key new) h auth).0 else auth)

-- the steps of step 3: for the key, then for its .pub, remove the stale copy, move the old file
-- away and the new one in place; then `os.chmod`
abbrev pub swap_steps : List (Files → Files)
swap_steps =
    (λ f. record f { key_old = none })
    ∷ (λ f. record f { key_old = f.key; key = none })
    ∷ (λ f. record f { key = f.key_new; key_new = none })
    ∷ (λ f. record f { pub_old = none })
    ∷ (λ f. record f { pub_old = f.pub_key; pub_key = none })
    ∷ (λ f. record f { pub_key = f.pub_new; pub_new = none })
    ∷ (λ f. f)
    ∷ []

-- the steps up to the one that raises, and whether none does
unfoldable pub run_steps : Option ℕ → List (Files → Files) → Files → Files × Bool
run_steps raises [] f = (f, true)
run_steps none (step ∷ steps) f = run_steps none steps (step f)
run_steps (some zero) (step ∷ steps) f = (f, false)
run_steps (some (suc n)) (step ∷ steps) f = run_steps (some n) steps (step f)

-- `test_connection` over a new connection
abbrev pub login : Files → Authorized → String → Bool
login f auth h = elim f.key [ none ↦ false | some k ↦ contains k (lines_of h auth) ]

-- step 4 for one host: the login by the new key, then the old key off the host
unfoldable pub verify_one : Outside → Files → String → String → Authorized → Authorized × Verified
verify_one o f old h auth =
    let ok = o.reachable h && login f auth h in
    let (auth', cleaned) = on_host (o.clean h) (remove_key old) h auth in
    if ok && not (old == "")
    then (auth', record { host = h; verify = ok; cleanup = cleaned })
    else (auth, record { host = h; verify = ok; cleanup = false })

unfoldable pub verify_all :
    Outside → Files → String → List String → Authorized → Authorized × List Verified
verify_all o f old [] auth = (auth, [])
verify_all o f old (h ∷ hs) auth =
    let (auth', v) = verify_one o f old h auth in
    let (auth'', vs) = verify_all o f old hs auth' in (auth'', v ∷ vs)

-- from the swap on
unfoldable pub after_deploy :
    Outside
    → String
    → List String
    → List (String × Bool)
    → Files × Bool
    → Authorized
    → Site × Report
after_deploy o old hosts results (f, false) auth =
    (record { files = f; authorized = auth }, swap_failed results)
after_deploy o old hosts results (f, true) auth =
    let (auth', vs) = verify_all o f old hosts auth in
    (record { files = f; authorized = auth' }, rotated (all (λ v. v.verify) vs) vs)

-- from the deployment on, with the files that hold the new key
unfoldable pub deploy_and_swap :
    Outside → String → String → List String → Files → Authorized → Site × Report
deploy_and_swap o old new hosts f auth =
    let (auth', results) = deploy_all o new hosts auth in
    let swapped = after_deploy o old hosts results (run_steps o.swap_fails swap_steps f) auth' in
    if not (all (λ r. r.1) results)
    then (
      record {
        files = record f { key_new = none; pub_new = none };
        authorized = roll_back o new results auth';
      },
      deploy_failed results,
    )
    else swapped

abbrev pub old_of : Option String → String
old_of none = ""
old_of (some k) = k

-- `get_public_key() or ""`
abbrev pub old_pub : Files → String
old_pub f = old_of f.pub_key

-- with no hosts, the swap does not remove the stale copies
abbrev pub local_steps : List (Files → Files)
local_steps =
    (λ f. elim f.key [ none ↦ f | some k ↦ record f { key_old = f.key; key = none } ])
    ∷ (λ f. record f { key = f.key_new; key_new = none })
    ∷ (λ f. elim f.pub_key [ none ↦ f | some k ↦ record f { pub_old = f.pub_key; pub_key = none } ])
    ∷ (λ f. record f { pub_key = f.pub_new; pub_new = none })
    ∷ (λ f. f)
    ∷ []

abbrev pub locally : Files × Bool → Authorized → Site × Report
locally (f, true) auth = (record { files = f; authorized = auth }, rotated_locally)
locally (f, false) auth = (record { files = f; authorized = auth }, local_swap_failed)

-- by what ssh-keygen comes to and the registered hosts, with the new files of an earlier run gone
unfoldable pub rotate_from : Option String → Outside → String → List String → Site → Site × Report
rotate_from none o old hosts site = (site, not_generated)
rotate_from (some new) o old [] site =
    locally
      (run_steps o.swap_fails local_steps
        (record site.files { key_new = some new; pub_new = some new }))
      site.authorized
rotate_from (some new) o old (h ∷ hs) site =
    deploy_and_swap o old new (h ∷ hs)
      (record site.files { key_new = some new; pub_new = some new }) site.authorized

unfoldable pub rotate_ssh_keys : Outside → List String → Site → Site × Report
rotate_ssh_keys o hosts site =
    rotate_from o.generated o (old_pub site.files) hosts
      (record site { files = record site.files { key_new = none; pub_new = none } })
