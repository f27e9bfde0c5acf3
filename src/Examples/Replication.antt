-- ===== src/Examples/Replication.antt =====
-- Checks of replication pairs by app/replication_monitor.py.
use pve_zfs_tool.Common.{
  ℕ, ◌≡◌, refl, true, false, Option, none, some, String, List, [], ◌∷◌, all, string_eq, arith,
}
use pve_zfs_tool.Common.Dict.{get}
use pve_zfs_tool.Common.Words.{all_in, behind_first, strip, rstrip, lstrip}
use pve_zfs_tool.Replication.Cron.{cron_interval_seconds}
use pve_zfs_tool.Replication.Cron.Bounds.{Spacing, cron_interval_seconds-Spacing}
use pve_zfs_tool.Replication.Config.Kept.{is_writable, is_distinct}
use pve_zfs_tool.Replication.Config.Write.{Values, Answers, cleaned, write_config}
use pve_zfs_tool.Replication.Config.Write.Guard.{Handled, write_config-Handled}
use pve_zfs_tool.Replication.Pairs.{
  Status, warn, crit, behind, Snapshot, Config, Answer, source_ip, behind_at,
}
use pve_zfs_tool.Replication.Alerts.{
  Host, Store, alert_in, is_source_muted, maybe_alert, run_checks_for_host, row_of,
}
use pve_zfs_tool.Replication.Alerts.Laws.{
  Round, row, spaced, watch, is_recent, crit_reminded, watch-spaced,
}
use pve_zfs_tool.Replication.Alerts.Quiet.{is_worth, run_checks_for_host-worth}
use pve_zfs_tool.Replication.Overview.{source_health_map}
use pve_zfs_tool.Replication.Overview.Worst.{level, worst, level-source_health_map}

abbrev conf : String
conf = "/etc/bashclub/10.0.0.5.conf"

abbrev found : Status → ℕ → Snapshot
found status now = record {
  config_path = conf;
  source = "root@10.0.0.5";
  target = "tank/repl";
  schedule = some "*/15 * * * *";
  interval = some 900;
  newest_snapshot = some "tank/repl/vm-101@daily";
  last_sync_ts = some 1000;
  lag = some (behind 5000);
  status = status;
  checked_at = now;
}

abbrev known : List Host
known =
    record { address = "10.0.0.5"; name = "pve1"; standby = false; muted = false }
    ∷ record { address = "10.0.0.6"; name = "pve2"; standby = true; muted = false }
    ∷ []

abbrev check : Status → ℕ → Round
check status now = record { hosts = known; now = now; snap = found status now }

abbrev checks : List Round
checks = check warn 6000 ∷ check crit 9000 ∷ check crit 12000 ∷ check crit 31000 ∷ []

not_muted : is_source_muted known (found crit 9000) ≡ false
unfolding is_source_muted source_ip behind_at behind_first strip rstrip lstrip
not_muted = refl

cron_interval_seconds-Spacing_example : Spacing (cron_interval_seconds "0,5-30/15 2-3 * * 1")
cron_interval_seconds-Spacing_example = cron_interval_seconds-Spacing "0,5-30/15 2-3 * * 1"

crit_reminded_example :
    is_recent 9000
      (alert_in (row "10.0.0.9" conf (maybe_alert known 9000 "10.0.0.9" (found crit 9000) []).0))
    ≡ true
crit_reminded_example =
    crit_reminded "10.0.0.9" conf known 9000 (found crit 9000) [] refl refl not_muted (omega arith)

watch-spaced_example :
    spaced "10.0.0.9" conf (alert_in (row "10.0.0.9" conf [])) (watch "10.0.0.9" conf checks []).1
    ≡ true
watch-spaced_example = watch-spaced "10.0.0.9" conf checks [] refl

abbrev configs : List (Config × Option Answer)
configs =
    (
      record { path = conf; source = "root@10.0.0.5"; target = "tank/repl"; needs_import = false },
      some (record { schedule = some "*/15 * * * *"; newest = some ("tank/repl@a", 1000) }),
    )
    ∷ (
      record { path = "/b"; source = "root@10.0.0.6"; target = "tank/b"; needs_import = false },
      some (record { schedule = some "*/15 * * * *"; newest = some ("tank/b@a", 1000) }),
    )
    ∷ []

run_checks_for_host-worth_example :
    all
      (is_worth known 90000 "10.0.0.9")
      (run_checks_for_host known 90000 "10.0.0.9" (some configs) []).2
    ≡ true
run_checks_for_host-worth_example =
    run_checks_for_host-worth known 90000 "10.0.0.9" (some configs) []

abbrev rows : Store
rows = ("a", row_of (found warn 9000) none) ∷ ("b", row_of (found crit 9000) none) ∷ []

level-source_health_map_example :
    level (get "10.0.0.5" (source_health_map rows)) ≡ worst "10.0.0.5" rows
level-source_health_map_example = level-source_health_map "10.0.0.5" rows

abbrev asked : Values
asked =
    ("source", some "root@10.0.0.5")
    ∷ ("target", some "tank/repl")
    ∷ ("min_keep", some "3")
    ∷ ("tag", some "")
    ∷ []

abbrev answers : Answers
answers = record {
  same_host = λ ip. false;
  tagged = λ tag. ("rpool/data", true) ∷ [];
  existing = some "# pair\ntarget = 'old'\r\nretries=2\n";
}

writable : is_writable (cleaned asked) ≡ true
unfolding cleaned all_in
writable = refl

distinct : is_distinct (cleaned asked) ≡ true
unfolding cleaned get
distinct = refl

write_config-Handled_example :
    Handled answers asked none "min_keep" (write_config answers asked none)
write_config-Handled_example = write_config-Handled answers asked none "min_keep" writable distinct
