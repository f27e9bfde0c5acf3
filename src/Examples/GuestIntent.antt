-- ===== src/Examples/GuestIntent.antt =====
-- A guest whose exceptions are set (app/guest_intent.py).
use pve_zfs_tool.Common.{◌≡◌, refl, true, false, some, [], ◌∷◌, pair_eq, string_eq}
use pve_zfs_tool.Common.Dict.{get}
use pve_zfs_tool.Common.Case.{same_ci}
use pve_zfs_tool.GuestIntent.{
  Names, Reason, World, Outside, exceptions_from_tags, tags_of, set_exception, stored,
}
use pve_zfs_tool.GuestIntent.Tags.{flags_of, set_exception-declared}

abbrev names : Names
names = record { backup = "no-backup"; replication = "no-replication" }

abbrev backup_only : Reason
backup_only = record {
  kinds = record { backup = true; replication = false };
  reason = "a test guest";
  by = "admin";
  at_time = 100;
}

abbrev tagged : World
tagged = record { tags = ("101", "web" ∷ "No-Replication" ∷ []) ∷ []; reasons = [] }

abbrev answers : Outside
answers = record { exists = true; readable = true; writable = true }

differ : same_ci "no-backup" "no-replication" ≡ false
unfolding same_ci
differ = refl

set_exception-declared_example :
    (exceptions_from_tags names (
        ("101", tags_of "101" (set_exception answers names "pve1" "101" true backup_only tagged).0)
        ∷ [])
      ≡ ("101", flags_of (backup_only.kinds)) ∷ [])
    × (get
          ("pve1", "101")
          (set_exception answers names "pve1" "101" true backup_only tagged).0.reasons
        ≡ some (stored backup_only))
set_exception-declared_example =
    set_exception-declared answers names "pve1" "101" backup_only tagged refl refl differ refl
