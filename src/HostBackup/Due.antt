-- ===== src/HostBackup/Due.antt =====
-- `_same_period` and `backup_due` of app/hostbackup.py. A naive local time is the whole second
-- since the start of 1 January of the year 1, a Monday, so that weeks and weekdays are divisions;
-- which month a day falls into is a parameter.
use pve_zfs_tool.Common.{
  ℕ, ◌+◌, ◌*◌, ◌/◌, ◌%◌, ◌≤◌, ◌≡◌, ◌≢◌, Bool, true, false, ◌&&◌, ◌||◌, Option, none, some, arith,
  ltb, leb, nat_beq, if◌then◌else◌,
}

pub data Interval : Type 0 where
  daily weekly monthly : Interval

pub record Sched : Type 0 where
  pub enabled : Bool
  pub interval : Interval
  pub hour : ℕ
  pub weekday : ℕ
  pub keep : ℕ

-- `_INTERVAL_SECONDS`
abbrev pub interval_seconds : Interval → ℕ
interval_seconds daily = 86400
interval_seconds weekly = 604800
interval_seconds monthly = 2592000

abbrev pub day_of : ℕ → ℕ
day_of t = t / 86400

abbrev pub hour_of : ℕ → ℕ
hour_of t = t % 86400 / 3600

abbrev pub weekday_of : ℕ → ℕ
weekday_of t = t / 86400 % 7

module _ (month_of : ℕ → ℕ) where
  -- the number of the day, the ISO week or the month that a time falls into
  abbrev pub period : Interval → ℕ → ℕ
  period daily t = day_of t
  period weekly t = day_of t / 7
  period monthly t = month_of (day_of t)

  unfoldable pub same_period : ℕ → ℕ → Interval → Bool
  same_period dt now interval = nat_beq (period interval dt) (period interval now)

  abbrev pub on_day : Sched → ℕ → Bool
  on_day sched now = elim sched.interval [ weekly ↦ leb sched.weekday (weekday_of now) | _ ↦ true ]

  -- `(now - newest_dt).total_seconds() > interval_secs * 1.5`, both sides doubled
  abbrev pub overdue : Option ℕ → ℕ → Interval → Bool
  overdue none now interval = true
  overdue (some newest) now interval = ltb (newest * 2 + interval_seconds interval * 3) (now * 2)

  abbrev pub has_period : Option ℕ → ℕ → Interval → Bool
  has_period none now interval = false
  has_period (some newest) now interval = same_period newest now interval

  unfoldable pub backup_due : Option ℕ → ℕ → Sched → Bool
  backup_due newest now sched =
      if has_period newest now sched.interval
      then false
      else on_day sched now && leb sched.hour (hour_of now) || overdue newest now sched.interval

  -- A daily or weekly backup that is not due is there and at most one and a half intervals old.
  pub not_due_fresh :
      (newest now : ℕ) (sched : Sched)
      → sched.interval ≢ monthly
      → backup_due (some newest) now sched ≡ false
      → now * 2 ≤ newest * 2 + interval_seconds sched.interval * 3
  unfolding backup_due same_period
  not_due_fresh newest now sched h d = ground arith

  -- On a Sunday between 23:00 and midnight, a schedule whose weekday and hour are in range is not
  -- due only if there is a backup in the current period.
  pub due_by_end :
      (newest now : ℕ) (sched : Sched)
      → sched.weekday ≤ 6
      → sched.hour ≤ 23
      → weekday_of now ≡ 6
      → hour_of now ≡ 23
      → backup_due (some newest) now sched ≡ false
      → same_period newest now sched.interval ≡ true
  unfolding backup_due
  due_by_end newest now sched wd hr sunday late d = ground arith
