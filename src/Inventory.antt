-- ===== src/Inventory.antt =====
-- app/replication_inventory.py
pub mod Compare
pub mod Copies
pub mod Lineages
pub mod Matrix
pub mod UnionFind
