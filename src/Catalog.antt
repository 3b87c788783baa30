-- ===== src/Catalog.antt =====
-- catalog/: what a product costs, and the slugs of its pages.
pub mod Pricing
pub mod Slugs
pub mod Alerts
pub mod Listing
pub mod Reviews
pub mod Profit
