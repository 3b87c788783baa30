-- ===== src/Tests.antt =====
-- Runs of the theorems on concrete data, a module for each part of the program.
mod Samples
mod Stock
mod Orders
mod Money
mod Parcels
mod Runs
mod Purchases
mod Pages
mod Payments
mod Callback
mod Staff
mod Accounts
mod Report
mod Checkout
mod Actions
mod Desk
