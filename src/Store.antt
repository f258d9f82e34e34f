-- ===== src/Store.antt =====
-- The tables of the database that the financial packages work on (db/migrations/00009, 00013 to
-- 00024, internal/database/gen/models.go): one record for each row type, and the state of a
-- transaction. Columns that the modelled code neither reads nor writes are left out.
mod Expensas
mod Pagos
pub use Expensas.*
pub use Pagos.*
use consorcioabierto.Prelude.{ℕ, List}
use consorcioabierto.Env.{Uuid}

pub record Db : Type 0 where
  -- `app.current_tenant_id()`, `now()`, and how many identifiers were generated
  pub current_tenant : Uuid
  pub now : ℕ
  pub generated : ℕ
  pub users : List Uuid
  pub consorcios : List Consorcio
  pub unidades : List Unidad
  pub gastos : List Gasto
  pub liquidaciones : List Liquidacion
  pub liquidacion_gastos : List LiquidacionGasto
  pub liquidacion_items : List LiquidacionItem
  pub liquidacion_unidades : List LiquidacionUnidad
  pub charges : List Charge
  pub account_entries : List AccountEntry
  pub payments : List Payment
  pub payment_allocations : List PaymentAllocation
  pub psp_intents : List PspIntent
  pub idempotency_keys : List IdempotencyKey
  pub outbox_events : List OutboxEvent
