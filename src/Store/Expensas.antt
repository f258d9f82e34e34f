-- ===== src/Store/Expensas.antt =====
-- Rows of units, expenses, settlements, charges and account entries.
use consorcioabierto.Prelude.{ℕ, Bool, Option, ◌==◌}
use consorcioabierto.Prelude.Int.{ℤ}
use consorcioabierto.Prelude.Text.{Text}
use consorcioabierto.Prelude.Dates.{Date}
use consorcioabierto.Env.{Uuid}

-- `liquidaciones_estado_check`, and the empty string of a zero `LiquidacionDTO`, which no row holds
pub data Estado : Type 0 where
  borrador calculada confirmada publicada cerrada anulada sin_estado : Estado

abbrev estado_code : Estado → ℕ
estado_code borrador = 0
estado_code calculada = 1
estado_code confirmada = 2
estado_code publicada = 3
estado_code cerrada = 4
estado_code anulada = 5
estado_code sin_estado = 6

abbrev pub estado_eq : Estado → Estado → Bool
estado_eq a b = estado_code a == estado_code b

pub data GastoEstado : Type 0 where
  registrado pagado gasto_anulado : GastoEstado

pub data UnidadEstado : Type 0 where
  activa inactiva : UnidadEstado

-- `account_entries_tipo_check`
pub data EntryTipo : Type 0 where
  cargo reversa credito : EntryTipo

pub record Consorcio : Type 0 where
  pub tenant_id : Uuid
  pub id : Uuid

pub record Unidad : Type 0 where
  pub tenant_id : Uuid
  pub consorcio_id : Uuid
  pub id : Uuid
  pub codigo : Text
  pub coeficiente : ℕ  -- in units of 10 ^ -8
  pub estado : UnidadEstado

pub record Gasto : Type 0 where
  pub tenant_id : Uuid
  pub consorcio_id : Uuid
  pub id : Uuid
  pub concepto_id : Uuid
  pub proveedor_id : Option Uuid
  pub importe_cents : ℤ
  pub fecha : Date
  pub estado : GastoEstado
  pub created_at : ℕ

pub record Liquidacion : Type 0 where
  pub tenant_id : Uuid
  pub consorcio_id : Uuid
  pub id : Uuid
  pub periodo : Text
  pub vencimiento_1 : Date
  pub vencimiento_2 : Option Date
  pub estado : Estado
  pub version : ℕ
  pub total_gastos_cents : ℤ
  pub total_distribuido_cents : ℤ
  pub unidades_alcanzadas : ℕ
  pub created_at : ℕ
  pub updated_at : ℕ

pub record LiquidacionGasto : Type 0 where
  pub tenant_id : Uuid
  pub liquidacion_id : Uuid
  pub gasto_id : Uuid
  pub concepto_id : Uuid
  pub importe_cents : ℤ

pub record LiquidacionItem : Type 0 where
  pub tenant_id : Uuid
  pub liquidacion_id : Uuid
  pub concepto_id : Uuid
  pub regla_aplicada : Text
  pub importe_cents : ℤ

pub record LiquidacionUnidad : Type 0 where
  pub tenant_id : Uuid
  pub liquidacion_id : Uuid
  pub unidad_id : Uuid
  pub codigo : Text
  pub coeficiente : ℕ
  pub total_cents : ℤ

pub record Charge : Type 0 where
  pub tenant_id : Uuid
  pub unidad_id : Uuid
  pub id : Uuid
  pub liquidacion_id : Option Uuid
  pub concepto : Text
  pub due_date : Date
  pub total_cents : ℤ
  pub saldo_cents : ℤ
  pub created_at : ℕ

pub record AccountEntry : Type 0 where
  pub tenant_id : Uuid
  pub unidad_id : Uuid
  pub id : Uuid
  pub tipo : EntryTipo
  pub fecha_efectiva : Date
  pub debit_cents : ℤ
  pub credit_cents : ℤ
  pub currency : Text
  pub referencia : Option Text
  pub charge_id : Option Uuid
  pub created_at : ℕ
