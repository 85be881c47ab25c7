-- ===== src/Shop.antt =====
-- The state that the services work on: the tables of backend/prisma/schema.prisma as far as the
-- order services read and write them, the messages published on the event bus, and the eligibility
-- that the delivery strategy keeps between two calls. Each row is one of the request's tenant.
-- A table that is only reached by its key is a function into `Option`; one that is searched is a
-- list with the newest row first, but for the outbox, which stands in the order of its ids. Columns of money are in cents, stocks in thousandths.
mod Types
mod Monad
pub use Types.*
pub use Monad.*
