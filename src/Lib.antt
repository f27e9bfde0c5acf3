-- ===== src/Lib.antt =====
-- pve-zfs-tool: a web tool for Proxmox VE hosts with ZFS. This development models the parts that
-- decide what is reported, what is deleted and what is moved.
--
-- The parts and how they meet:
--   app/backups.py reads the backups of a node and judges each guest: Backups holds the records of
--   the guests, Backups/States the thresholds and verdicts, Backups/Collect what the node answers.
--   With the copies that app/replication_inventory.py finds, it judges the protection of each guest
--   and of the host: Protection. The exceptions that these verdicts read are declared by
--   app/guest_intent.py: GuestIntent.
--   app/replication_inventory.py groups datasets into lineages by their snapshots' guids and
--   compares the copies of one: Inventory/Lineages for build_guid_index and group_lineages,
--   Inventory/UnionFind for its closures find and union, Inventory/Compare for detect_source and
--   compare_copy, Inventory/Copies for the copies of a lineage, and Inventory/Matrix for build_matrix
--   and filter_matrix, with guest_ref_from_dataset of app/dr.py. The labels of the snapshots come from
--   app/snaptags.py: SnapTags.
--   app/monitor.py keeps one row for each watched object and decides which change is worth a
--   message: Monitor for the table, Reachability (with the probe of app/metrics.py), Capacity,
--   Errors, Health, Topology and Stale for the checks.
--   app/replication_monitor.py watches the replication pairs: Replication/Cron for the interval of a
--   cron expression, Replication/Pairs for the state of a pair, Replication/Alerts for
--   _maybe_alert_locked and run_checks_for_host, Replication/Overview for health_snapshot and
--   source_health_map. The configuration of a pair is written by app/replication.py:
--   Replication/Config for _parse_config and _serialize_config, Replication/Config/Write for
--   write_config.
--   app/pool_topology.py reads the tree of zpool status, which Topology reports: PoolTopology.
--   app/hostbackup.py stores, prunes and schedules backups of a host's configuration: HostBackup
--   for the names and the pruning, Due for the schedule, Scheduler for the ticks.
--   app/migrate.py moves a guest to another host: Migration, after a preflight, Migration/Preflight,
--   that looks at the target's storages, Migration/Storage. Its cleanup, Migration/Snapshots, asks
--   app/tasks.py, the registry of background tasks, whether a migration runs: Tasks.
--   app/ssh_manager.py runs the commands that all of these need: Ssh/Pool for the connections,
--   Ssh/Command for run_command, which asks app/cache.py first: Cache. Ssh/Rotation is the rotation
--   of the tool's key. app/validators.py checks what goes into a command: Validators.
--   app/autosnap.py reads and changes the retention in the cron files of zfs-auto-snapshot: Autosnap.
--   app/tuning.py suggests and sets the size of the ARC: Tuning.
--   Common holds the shared names: numbers, lists, the association list that stands for a dict,
--   sorting, the order of texts, their stripping and splitting, their lines, the prints of numbers, and the
--   scanners that stand for regular expressions.
--   Examples holds concrete inputs for the theorems.
--
-- How the code is read: a function on shared state takes the state and returns the new one with the
-- messages it sends; threads are a row of steps in any interleaving; an error is a constructor of
-- the result. Where the code has floating point, times are whole seconds, fill levels whole
-- percents and thresholds whole hours. Texts are ASCII where the code lowers them or looks for
-- digits.
--
-- Bounds and fuel: the loop of find runs on fuel. A union deepens the tree by at most one, and path
-- halving never does, so that one more than the number of unions is enough. The loop of
-- suggest_storage_id that looks for a free name runs on fuel, and more fuel than there are names is
-- enough; range takes at most one step for each number between its ends; the digits of a number take
-- no more rounds than the number. The replacement of --keep goes on at most as often as a line has
-- characters. All other loops go over a list or a text.
--
-- What is a parameter: what a command over SSH reports and what the SSH library does, the clocks,
-- the calendar's months, the parse of dates, the outcome of the removal of a file. What is not
-- modelled: the parsing of JSON and of command output into rows, SQLite beyond the effect of each
-- statement on the table, the delivery of messages, the web application, the reports, and the parts
-- that need floating point.
pub mod Autosnap
pub mod Backups
pub mod Cache
pub mod Common
pub mod Examples
pub mod GuestIntent
pub mod HostBackup
pub mod Inventory
pub mod Migration
pub mod Monitor
pub mod PoolTopology
pub mod Protection
pub mod Replication
pub mod SnapTags
pub mod Ssh
pub mod Tasks
pub mod Tuning
pub mod Validators
