-- ===== src/Returns.antt =====
-- returns/: return requests and the parcels that bring the goods back.
pub mod Models
pub mod Services
pub mod Refunds
pub mod Desk
pub mod Views
