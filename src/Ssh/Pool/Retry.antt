-- ===== src/Ssh/Pool/Retry.antt =====
-- How often `_exec_pooled` of app/ssh_manager.py runs a command, and what it returns.
use pve_zfs_tool.Common.{
  ℕ, suc, ◌+◌, String, ◌≡◌, Bool, true, false, Option, none, some, List, [], ◌∷◌, nat_eq, string_eq,
  pair_eq,
}
use pve_zfs_tool.Ssh.{Result, failure}
use pve_zfs_tool.Ssh.Pool.{
  Entry, Call, connected, executed, closed, World, Attempt, Ran, done, stale, raised, run_once,
  result_of, conn_reusable,
}

-- how often a command was run
abbrev pub runs : List Call → ℕ
runs [] = 0
runs (connected c ∷ past) = runs past
runs (executed c ∷ past) = suc (runs past)
runs (closed c ∷ past) = runs past

-- whether the pool has a connection that `_acquire` gives again
abbrev pub reused_by : Attempt → Option Entry → Bool
reused_by a none = false
reused_by a (some e) = conn_reusable a e

-- a run over a new connection: how often the command is run, and the result
abbrev pub new_run : Option String → Ran → ℕ × Result
new_run (some e) r = (0, failure e)
new_run none r = (1, result_of r)

abbrev pub one_run : Attempt → ℕ × Result
one_run a = new_run a.connect_error (run_once a.outcome)

-- a run over a connection of the pool: a second one over a new connection follows where the
-- first found its connection dead
abbrev pub reused_run : Ran → Attempt → ℕ × Result
reused_run (done r) b = (1, r)
reused_run (raised e) b = (1, failure e)
reused_run (stale e) b = (suc (one_run b).0, (one_run b).1)

abbrev pub expected : (a b : Attempt) → Bool → ℕ × Result
expected a b true = reused_run (run_once a.outcome) b
expected a b false = one_run a

-- the run from `w` adds so many runs and gives that result
abbrev Adds : World → ℕ × Result → World × Result → Type 0
Adds w (n, r) (w', r') = (runs w'.calls ≡ runs w.calls + n) × (r' ≡ r)
