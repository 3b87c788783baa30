-- ===== src/Fulfillment.antt =====
-- fulfillment/: invoices, packing slips and shipments.
pub mod Models
pub mod Tracking
pub mod Services
pub mod Tasks
pub mod Admin
