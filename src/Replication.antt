-- ===== src/Replication.antt =====
-- app/replication_monitor.py: how often a pair is meant to run, how late it is, and when that is
-- worth a notification.
pub mod Alerts
pub mod Config
pub mod Cron
pub mod Overview
pub mod Pairs
