-- ===== src/Lib.antt =====
-- The core of the store: what a checkout, an edit, a status change or a card payment does to the
-- database, the pricing, credit and access rules behind them, and the tenants, stores and catalog that they
-- stand on. Each definition follows one function of the TypeScript backend or of the web client; names are
-- those of the source in snake case.
--
-- A service method is an `Action`: it takes the tables as a value (`Shop`) and returns a result or an
-- error with the tables as they are then (Shop/Monad). `prisma.$transaction` is `transaction`, which undoes
-- what was written when its body throws; writes outside of one stay. Requests that run at the same time
-- are sequences of such steps. The rows are those of one tenant, and of one store where a table is per
-- store.
--
-- Files, with the code they model under backend/:
--   Common, Text: lists, integers and strings as JavaScript treats them.
--   Money: Decimal columns and amounts. Numbers are exact: prices and balances are cents, quantities
--     are in 10^-12, so a product is in 10^-12 cents; a column rounds to its scale. The rounding of
--     binary doubles between two operations is not modelled, but for the tax of a checkout
--     (Orders/Lines/Tax on Money/Doubles), where toFixed(2) goes by the double.
--   Shop: prisma/schema.prisma as far as the order services use it, AppError, src/services/event-bus.service.ts.
--   Pricing: src/services/pricing.ts (resolveUnitPrice, isQuantityAllowed) and
--     src/services/storeVariant.effective.ts (resolveVariantEffective).
--   Roles: src/constants/roles.ts and src/middleware/role.middleware.ts (authorize, requireSuperAdmin).
--   Credit: src/services/store-credit.service.ts.
--   Payments: src/services/payments/ and verifyTransaction of src/services/authorizenet.service.ts.
--   Fulfillment: src/services/fulfillment/ and src/validators/deliveryAddress.ts. The field `lastEligibility` of
--     the one delivery strategy object is a field of the shop.
--   Orders/Stock, Lines, Create, Edit: src/services/order.crud.service.ts (decrementStockGuarded, createOrder,
--     addItemToOrder, voidOrderItem, deleteOrderItem, deleteOrder).
--   Orders/Status: src/services/order.fulfillment.service.ts (updateOrderStatus, customerArrive), with getOrderSync
--     of src/services/pos/registry.ts and enqueue of src/services/pos/orders/posOrderService.ts.
--   Orders/Card: src/services/order.payment.service.ts and src/services/payments/cc.strategy.ts.
--   Outbox: src/services/pos/orders/outboxWorker.ts (runOutboxOnce, a run that is not interrupted) and
--     processOutboxRow of src/services/pos/orders/posOrderService.ts.
--   Address: src/utils/address.util.ts.
--   Geocoding, Eligibility: src/services/deliveryEligibility.service.ts, with the record of
--     src/services/orderingConstraints.service.ts.
--   Sessions: src/services/auth.service.ts (login, refresh, rotateAndMint, logout, revokeFamily).
--   Approval: src/services/user.approval.service.ts. Staff: src/services/staffAssignment.service.ts.
--   Tenancy: src/config/tenantScope.ts, the context of src/config/tenantContext.ts, and the interceptor of
--     src/config/database.ts with injectNestedRelations.
--   Printing: src/services/printJob.service.ts.
--   Reporting: src/utils/reportingPagination.ts and the page sizes of src/utils/reportingConfig.ts.
--   Ttl: src/utils/ttlCache.ts. Settings: src/services/settingsStore.ts.
--   Stores: src/services/store.service.ts and resolveActiveStore of src/middleware/tenant.middleware.ts;
--     Stores/Inventory: src/services/storeVariantOverride.service.ts and cloneFromDefault.
--   Tenants: src/services/tenantManagement.service.ts; Tenants/Resolving: src/middleware/tenant.middleware.ts.
--   Catalog: src/services/product.service.ts and src/services/product.shared.ts, with deleteUploadedFile of
--     src/utils/fileUtils.ts.
--   Csv: web/src/features/products/csvHelpers.js, validateAndTransformRows (not under backend/).
--   Checkout: web/src/features/cart/checkout/checkoutMachine.js (not under backend/).
--   Samples and the Tests modules: a small shop, and each theorem at a concrete input.
--
-- `createOrder` calls a payment strategy and a fulfillment strategy; both work on the shop that it holds
-- in its transaction. The credit strategy calls the credit service. Status changes enqueue rows for the
-- point of sale. Eligibility/Delivered puts the eligibility service under the delivery strategy, and the
-- settings store works on the cache of Ttl. A new tenant gets a store of the Stores table
-- (Tenants/Created), the middleware picks tenant and store from both tables (Tenants/Admitted), and a store
-- that is cloned and the catalog show prices through the overrides of Pricing.
--
-- A run of the store or tenant service is a list of whole calls; Stores/Race takes a call apart where the
-- source does not use a transaction.
--
-- Arguments of the definitions stand for what is not modelled: the answers of the payment gateway
-- (`String → Option Transaction`) and of the POS provider (`Provider`), the ordering
-- constraints and the delivery eligibility (`Environment`), the tenant context (`Option StoreContext`) and
-- the settings of the store (`PosSettings`). The geocoding provider, the distance of two coordinates
-- (`roundMiles(haversineMiles(..))` on doubles), the hash of tokens and passwords, the clock, random
-- tokens and the case of letters outside ASCII are arguments, too, as are `parseInt`, `parseFloat` and `toLowerCase` where a
-- text is only compared, what `path.resolve` makes of the name of an upload, and what the token library
-- says of a token. The loop of `uniqueSlug` has one round
-- of fuel more than there are products, which is enough since its candidates differ. The scaling of a
-- double has 128 rounds, which reach down to 2^-76, below any amount of this code but 0. No other loop
-- needs fuel, and the client that follows the pages of a report takes one step more than there are rows at most.
--
-- Not modelled: logging, the shape of responses and the read-only
-- lists, receipts and the layout of printing, the HTTP client of the POS, the search of
-- products, categories, registration and administration of users, access tokens, notifications, the
-- queries of reports, and the rest of the web client.
-- The order core takes the eligibility of an address as an argument and works on the rows that the
-- tenant scoping lets through.
pub mod Common
pub mod Money
pub mod Pricing
pub mod Roles
pub mod Shop
pub mod Samples
pub mod Text
pub mod Credit
pub mod Payments
pub mod Fulfillment
pub mod Address
pub mod Geocoding
pub mod Eligibility
pub mod Ttl
pub mod Stores
pub mod Tenants
pub mod Catalog
pub mod Csv
pub mod Staff
pub mod Settings
pub mod Approval
pub mod Sessions
pub mod Printing
pub mod Tenancy
pub mod Reporting
pub mod Orders
pub mod Outbox
pub mod Checkout
