-- ===== src/Lib.antt =====
-- Shop Orbit: a Django shop for one seller. This library models the program's own logic and proves
-- what makes it correct; the rendering of pages, the text of mails and the drawing of documents are left
-- out.
--
-- A buyer's cart becomes an order that holds stock (cart/, inventory/). A payment attempt at the
-- gateway ends in a callback of the browser, a webhook or a reconciliation (payments/), of which the first
-- to arrive confirms the order, turns its reservation into a sale and makes the invoice, the packing
-- slip and the shipment (fulfillment/); or it fails, and the reservation is released. Staff accept
-- and pack the order, the courier's status moves it on, and a delivered order may be returned and
-- refunded (returns/).
--
-- The files:
--   Base and its children: numbers, money in paise with `decimal` rounding, results, lists.
--   Cart: Models, Pricing, Services (cart/models.py, cart/services.py, cart/tasks.py),
--     Checkout (the transactions of cart/views.py), CheckoutForm (cart/forms.py), CheckoutPage (the
--     page of cart/views.py over both) and Baskets (its carts and wishlists).
--   Orders: the life of an order as one machine, and the runs of the calls that move it.
--   Inventory: Models and Services (inventory/services.py); the counters are those of catalog/models.py.
--     Purchasing: purchase orders (inventory/services.py, inventory/admin.py).
--   Payments: Models, Gateway (gateways/base.py), Services, Refunding and Webhooks
--     (services.py), Pipeline (pipeline.py), PayPage (`checkout_payment` of cart/views.py),
--     Views (views.py), Razorpay (gateways/razorpay_gateway.py) and Admin (admin.py, and the
--     refund button of accounts/views.py).
--   Fulfillment: Models, Services, Tracking (couriers/delhivery.py), Tasks (tasks.py), Admin
--     (admin.py).
--   Returns: Models, Services, Refunds, Views (the request of returns/views.py), Desk (the other posts,
--     of returns/views.py and returns/admin.py).
--   Catalog: Pricing and Slugs (catalog/models.py), Listing and Reviews (catalog/views.py), Alerts
--     (catalog/signals.py, catalog/emails.py), Profit (catalog/profitability.py).
--   Accounts: Services (the default address of accounts/services.py) and Users (accounts/models.py,
--     accounts/managers.py and the sign-up of accounts/forms.py and accounts/views.py).
--   Staff: bulk actions, and the buttons that move an order (cart/admin.py, accounts/views.py,
--     cart/views.py).
--   Shop: the database that they share, the saves that fire signals, and (Shop.Action) calls that
--     commit as they go. A `transaction.atomic` block is a function into `Result Shop`, so that an
--     exception leaves nothing behind.
--   Tests: runs on concrete data.
--
-- A table is a function from keys to rows, or a list, newest first, where the code queries it. An
-- amount is a number of paise, a rate or a percentage a number of hundredths of a percent. Loops
-- are structural recursion over lists; the one `while` loop, in Catalog.Slugs, has a round of fuel
-- for each row of the table and one more, which is enough since each round meets a slug of another
-- row. The payment gateway is a record of functions (`Gateway`), the courier's answer an argument,
-- and the time, the company's state and the folding of case are in `Env`; nothing is assumed of
-- them except where a theorem says so.
--
-- Not modelled: the rows that a query locks are read at once, so two requests do not interleave within a
-- call; raw payloads, free text and time zones; the database's ordering and search; sign-in and the
-- hashing of passwords; the rendering of pages and documents; and of the admin the lists, filters and
-- exports.
mod Tests
pub mod Base
pub mod Cart
pub mod Inventory
pub mod Fulfillment
pub mod Payments
pub mod Returns
pub mod Staff
pub mod Shop
pub mod Catalog
pub mod Accounts
pub mod Orders
