-- ===== src/Orders.antt =====
-- The life of an order, across cart/, payments/, inventory/ and fulfillment/: the calls that move it,
-- and what they move it to.
pub mod Lifecycle
pub mod Steps
