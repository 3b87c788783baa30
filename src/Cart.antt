-- ===== src/Cart.antt =====
-- cart/: the cart and order models, their prices, and the order lifecycle.
pub mod Models
pub mod Pricing
pub mod Services
pub mod Checkout
pub mod CheckoutForm
pub mod CheckoutPage
pub mod Baskets
