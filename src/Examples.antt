-- ===== src/Examples.antt =====
-- Concrete inputs for the theorems.
mod Autosnap
mod Backups
mod GuestIntent
mod HostBackup
mod Inventory
mod Migration
mod Monitor
mod PoolTopology
mod Preflight
mod Protection
mod Replication
mod Settings
mod Ssh
mod Tasks
