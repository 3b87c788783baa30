-- ===== src/Payments.antt =====
-- payments/: payment attempts, refunds, webhooks, and what follows a payment.
pub mod Models
pub mod Gateway
pub mod Pipeline
pub mod Services
pub mod Refunding
pub mod Webhooks
pub mod PayPage
pub mod Razorpay
pub mod Views
pub mod Admin
