-- ===== src/Accounts.antt =====
-- accounts/: the address book and the accounts.
pub mod Services
pub mod Users
