-- ===== src/Pruebas/Datos.antt =====
-- A building with three units, one settlement and one payment.
use consorcioabierto.Prelude.{◌+◌, Option, none, some, [], ◌∷◌}
use consorcioabierto.Prelude.Int.{pos}
use consorcioabierto.Prelude.Text.{Text, codes}
use consorcioabierto.Prelude.Dates.{parse_date}
use consorcioabierto.Env.{Uuid, Env}
use consorcioabierto.Store.{
  Db, Unidad, activa, Gasto, registrado, Liquidacion, borrador, Charge, Payment, pendiente_revision,
}

abbrev scan : Text → Option Uuid
scan [] = none
scan (n ∷ []) = some n
scan (n ∷ m ∷ s) = none

-- Identifiers are printed as one code point, and the hash is the text itself.
abbrev pub env_de_prueba : Env
env_de_prueba = record {
  scan_uuid = scan;
  uuid_string = λ u. u ∷ [];
  parse_uuid = scan;
  scan_date = parse_date;
  sha256_hex = λ s. s;
  gen_random_uuid = λ n. 1000 + n;
}

abbrev pub unidad_a : Unidad
unidad_a = record {
  tenant_id = 1;
  consorcio_id = 2;
  id = 10;
  codigo = codes "A";
  coeficiente = 50000000;
  estado = activa;
}

abbrev pub gasto_luz : Gasto
gasto_luz = record {
  tenant_id = 1;
  consorcio_id = 2;
  id = 20;
  concepto_id = 30;
  proveedor_id = none;
  importe_cents = pos 1000;
  fecha = 20240510;
  estado = registrado;
  created_at = 5;
}

abbrev pub gasto_agua : Gasto
gasto_agua = record gasto_luz { id = 21; importe_cents = pos 500 }

abbrev pub liquidacion_mayo : Liquidacion
liquidacion_mayo = record {
  tenant_id = 1;
  consorcio_id = 2;
  id = 3;
  periodo = codes "202405";
  vencimiento_1 = 20240610;
  vencimiento_2 = none;
  estado = borrador;
  version = 7;
  total_gastos_cents = pos 0;
  total_distribuido_cents = pos 0;
  unidades_alcanzadas = 0;
  created_at = 5;
  updated_at = 5;
}

abbrev pub cargo_viejo : Charge
cargo_viejo = record {
  tenant_id = 1;
  unidad_id = 10;
  id = 40;
  liquidacion_id = some 3;
  concepto = codes "Expensa 202404";
  due_date = 20240510;
  total_cents = pos 300;
  saldo_cents = pos 300;
  created_at = 4;
}

abbrev pub cargo_nuevo : Charge
cargo_nuevo = record cargo_viejo {
  id = 41;
  due_date = 20240610;
  total_cents = pos 700;
  saldo_cents = pos 700;
}

abbrev pub pago : Payment
pago = record {
  tenant_id = 1;
  unidad_id = 10;
  id = 50;
  fecha = 20240701;
  canal = codes "otros";
  importe_cents = pos 800;
  referencia = none;
  estado = pendiente_revision;
  idem_key = codes "k";
  motivo_rechazo = none;
  created_by = 60;
  created_at = 6;
  psp_provider = none;
  psp_preference_id = none;
  psp_checkout_url = none;
}

abbrev pub db_de_prueba : Db
db_de_prueba = record {
  current_tenant = 1;
  now = 9;
  generated = 0;
  users = 60 ∷ [];
  consorcios = record { tenant_id = 1; id = 2 } ∷ [];
  unidades = unidad_a ∷ [];
  gastos = gasto_luz ∷ gasto_agua ∷ [];
  liquidaciones = liquidacion_mayo ∷ [];
  liquidacion_gastos = [];
  liquidacion_items = [];
  liquidacion_unidades = [];
  charges = cargo_nuevo ∷ cargo_viejo ∷ [];
  account_entries = [];
  payments = pago ∷ [];
  payment_allocations = [];
  psp_intents = [];
  idempotency_keys = [];
  outbox_events = [];
}
