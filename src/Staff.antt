-- ===== src/Staff.antt =====
-- What staff do in the admin and on the store dashboard, as compositions of the services.
pub mod Bulk
pub mod Orders
