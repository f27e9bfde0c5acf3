-- ===== src/Examples/Protection.antt =====
-- Guests of app/backups.py's protection verdicts.
use pve_zfs_tool.Common.{◌≡◌, ◌≢◌, ◌↔◌, Option, none, some, List, [], ◌∷◌, true}
use pve_zfs_tool.Backups.States.{red, no_backup, no_record}
use pve_zfs_tool.Protection.{Declared, Guest, protection_state, overall_verdict, accepted, crit}
use pve_zfs_tool.Protection.Laws.{
  rank, worst_rank, IsExposed, overall_verdict-worst, protection_state-crit_iff,
}

abbrev declared : Declared
declared = record { no_backup = true; no_replication = true }

-- a guest with no copy and no backup, declared or not
abbrev bare : Option Declared → Guest
bare d = record {
  vmid = "101";
  source_host = "pve1";
  copy_count = 0;
  backup = some (no_record red no_backup);
  exception = d;
  config_mismatch = "";
}

abbrev copied : Guest
copied = record {
  vmid = "102";
  source_host = "pve1";
  copy_count = 2;
  backup = none;
  exception = none;
  config_mismatch = "";
}

abbrev mixed : List Guest
mixed = bare (some declared) ∷ copied ∷ bare none ∷ []

overall_verdict-worst_example :
    (rank (overall_verdict mixed) ≡ worst_rank mixed) × (overall_verdict mixed ≢ accepted)
overall_verdict-worst_example = overall_verdict-worst mixed

protection_state-crit_iff_example : (protection_state (bare none) ≡ crit) ↔ IsExposed (bare none)
protection_state-crit_iff_example = protection_state-crit_iff (bare none)
