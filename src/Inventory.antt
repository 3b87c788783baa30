-- ===== src/Inventory.antt =====
-- inventory/: the stock counters and their ledger, and purchase orders.
pub mod Models
pub mod Services
pub mod Purchasing
