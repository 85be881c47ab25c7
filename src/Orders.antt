-- ===== src/Orders.antt =====
-- The order services: backend/src/services/order.crud.service.ts, order.fulfillment.service.ts and
-- order.payment.service.ts.
pub mod Stock
pub mod Lines
pub mod Create
pub mod Edit
pub mod Status
pub mod Card
