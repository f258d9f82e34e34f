-- ===== src/Store/Pagos.antt =====
-- Rows of payments, their allocations and intents, idempotency keys and outbox events, and the
-- bodies of the responses that are stored.
use consorcioabierto.Prelude.{ℕ, Bool, Option, ◌==◌}
use consorcioabierto.Prelude.Int.{ℤ}
use consorcioabierto.Prelude.Text.{Text}
use consorcioabierto.Prelude.Dates.{Date}
use consorcioabierto.Env.{Uuid}
use consorcioabierto.Store.Expensas.{Estado}

-- `payments_estado_check`, and the empty string of a zero `CobranzaDTO`, which no row holds
pub data PaymentEstado : Type 0 where
  pendiente_revision acreditado rechazado revertido sin_estado_pago : PaymentEstado

abbrev payment_estado_code : PaymentEstado → ℕ
payment_estado_code pendiente_revision = 0
payment_estado_code acreditado = 1
payment_estado_code rechazado = 2
payment_estado_code revertido = 3
payment_estado_code sin_estado_pago = 4

abbrev pub payment_estado_eq : PaymentEstado → PaymentEstado → Bool
payment_estado_eq a b = payment_estado_code a == payment_estado_code b

pub record Payment : Type 0 where
  pub tenant_id : Uuid
  pub unidad_id : Uuid
  pub id : Uuid
  pub fecha : Date
  pub canal : Text
  pub importe_cents : ℤ
  pub referencia : Option Text
  pub estado : PaymentEstado
  pub idem_key : Text
  pub motivo_rechazo : Option Text
  pub created_by : Uuid
  pub created_at : ℕ
  pub psp_provider : Option Text
  pub psp_preference_id : Option Text
  pub psp_checkout_url : Option Text

pub record PaymentAllocation : Type 0 where
  pub tenant_id : Uuid
  pub payment_id : Uuid
  pub charge_id : Uuid
  pub amount_cents : ℤ
  pub created_by : Uuid
  pub created_at : ℕ

pub record PspIntent : Type 0 where
  pub tenant_id : Uuid
  pub payment_id : Uuid
  pub provider : Text
  pub preference_id : Text
  pub status : Text

-- `expensas.LiquidacionDTO`
pub record LiquidacionDto : Type 0 where
  pub id : Text
  pub consorcio_id : Text
  pub periodo : Text
  pub vencimiento_1 : Text
  pub vencimiento_2 : Option Text
  pub estado : Estado
  pub version : ℕ
  pub total_gastos_cents : ℤ
  pub total_distribuido_cents : ℤ
  pub unidades_alcanzadas : ℕ
  pub created_at : ℕ
  pub updated_at : ℕ

-- `cobranzas.MoneyDTO`
pub record Money : Type 0 where
  pub amount_cents : ℤ
  pub currency : Text

-- `cobranzas.CobranzaDTO`
pub record CobranzaDto : Type 0 where
  pub id : Text
  pub unidad_id : Text
  pub fecha : Text
  pub canal : Text
  pub importe : Money
  pub referencia : Option Text
  pub estado : PaymentEstado
  pub saldo_a_favor_cents : ℤ
  pub psp_provider : Option Text
  pub psp_preference_id : Option Text
  pub psp_checkout_url : Option Text
  pub created_at : ℕ

-- A JSON column, by what was marshalled into it: `{}`, or the body of a response.
pub data Json : Type 0 where
  empty_object : Json
  liquidacion_json : LiquidacionDto → Json
  cobranza_json : CobranzaDto → Json

pub record IdempotencyKey : Type 0 where
  pub tenant_id : Uuid
  pub idempotency_key : Text
  pub scope : Text
  pub request_hash : Text
  pub response_json : Json

-- The payload of `liquidacion.publicada`, `outbox.LiquidacionPayload`.
pub record LiquidacionPayload : Type 0 where
  pub liquidacion_id : Text
  pub periodo : Text
  pub consorcio_id : Text

pub record OutboxEvent : Type 0 where
  pub tenant_id : Uuid
  pub id : Uuid
  pub correlation_id : Text
  pub event_type : Text
  pub payload : LiquidacionPayload
