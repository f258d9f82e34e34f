-- ===== src/Queries.antt =====
-- The statements of internal/database/gen/*.sql.go on the tables of the financial packages, one
-- function for each. Every statement sees the rows of the current tenant only. A statement
-- that reads gives a value of the state; one that writes is an action, which fails where a CHECK,
-- a primary key, a unique index or a foreign key of db/migrations is violated.
pub mod Gastos
pub mod Liquidaciones
pub mod Snapshot
pub mod Charges
pub mod Payments
pub mod Idempotency
