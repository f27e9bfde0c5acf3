-- ===== src/Examples/HostBackup.antt =====
-- Stored backups of app/hostbackup.py and two ticks of its scheduler.
use pve_zfs_tool.Common.{
  ℕ, ◌/◌, String, ◌≡◌, Bool, true, false, Option, none, some, List, [], ◌∷◌, ◌++◌, length, all, min,
}
use pve_zfs_tool.Common.Text.{str_le}
use pve_zfs_tool.HostBackup.{select_prunable}
use pve_zfs_tool.HostBackup.Prune.{valid, kept, select_prunable_lem}
use pve_zfs_tool.HostBackup.Due.{Interval, daily, Sched}
use pve_zfs_tool.HostBackup.Scheduler.{World, Outside, ticks}
use pve_zfs_tool.HostBackup.Scheduler.Laws.{
  after, open_at, last_try, tried_at, failures_alternate, attempts_throttled,
}

abbrev march : String
march = "pve-backup-20260301-020000.tar.gz"

abbrev may : String
may = "pve-backup-20260501-020000-withpriv.tar.gz"

abbrev june : String
june = "pve-backup-20260601-020000.tar.gz"

abbrev dir : List String
dir = may ∷ "notes.txt" ∷ june ∷ march ∷ []

select_prunable_lem_example :
    (select_prunable dir 2 ++ kept dir 2 ≡ valid dir)
    × (length (kept dir 2) ≡ min 2 (length (valid dir)))
    × (all (λ d. all (str_le d) (kept dir 2)) (select_prunable dir 2) ≡ true)
select_prunable_lem_example = select_prunable_lem dir 2

abbrev writable : String → Bool
writable _ = true

-- months of thirty days
abbrev thirties : ℕ → ℕ
thirties day = day / 30

abbrev sched : Interval → Sched
sched i = record { enabled = true; interval = i; hour = 2; weekday = 0; keep = 7 }

abbrev outside : ℕ → Option String → Outside
outside t stored = record {
  month_of = thirties;
  strptime = λ n. some n;
  removable = writable;
  now = t;
  epoch = λ _. t;
  create = λ _. stored;
}

abbrev world : World
world = record {
  hosts = ("pve1", false) ∷ [];
  files = [];
  failing = [];
  last_attempt = [];
  standby_logged = [];
}

abbrev two_ticks : List (Outside × List (String × Sched))
two_ticks =
    (outside 700000 none, ("pve1", sched daily) ∷ [])
    ∷ (outside 800000 (some june), ("pve1", sched daily) ∷ [])
    ∷ []

failures_alternate_example :
    after "pve1" (open_at "pve1" world) (ticks two_ticks world).1
    ≡ some (open_at "pve1" (ticks two_ticks world).0)
failures_alternate_example = failures_alternate "pve1" two_ticks world

attempts_throttled_example :
    last_try "pve1" (tried_at "pve1" world) (ticks two_ticks world).1
    ≡ some (tried_at "pve1" (ticks two_ticks world).0)
attempts_throttled_example = attempts_throttled "pve1" two_ticks world
