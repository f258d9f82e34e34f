-- ===== src/Cobranzas/Ledger.antt =====
-- internal/cobranzas/ledger.go: the movements of a unit and their balance. The JSON tag of
-- `created_at` leaves it out of the response, and the code sets it back to the zero time.
pub mod Saldo
use consorcioabierto.Prelude.{
  ℕ, Bool, Option, none, some, List, [], ◌∷◌, ◌++◌, map, ◌&&◌, ◌||◌, not, ◌==◌, ltb, if◌then◌else◌,
  select,
}
use consorcioabierto.Prelude.Int.{ℤ, pos}
use consorcioabierto.Prelude.Int64.{add64, sub64}
use consorcioabierto.Prelude.Text.{Text, codes, text_eq, text_ltb, trim_space}
use consorcioabierto.Prelude.Dates.{format_date}
use consorcioabierto.Prelude.Sort.{sort_by}
use consorcioabierto.Action.{Action, ok, err, pure, gets, or_raise, ◌>>=◌, ◌>>◌, cobranza_invalid}
use consorcioabierto.Env.{Uuid, Env}
use consorcioabierto.Store.{Db, Charge, Payment, PaymentEstado, acreditado, payment_estado_eq}
use consorcioabierto.Queries.Charges.{list_charges_by_unidad}
use consorcioabierto.Queries.Payments.{list_cobranzas}

pub record CuentaCorrienteMovimientoDto : Type 0 where
  pub id : Text
  pub unidad_id : Text
  pub tipo : Text
  pub fecha_efectiva : Text
  pub debit_cents : ℤ
  pub credit_cents : ℤ
  pub currency : Text
  pub referencia : Option Text
  pub created_at : ℕ

pub record CuentaCorrienteDto : Type 0 where
  pub movimientos : List CuentaCorrienteMovimientoDto
  pub saldo_cents : ℤ

-- The reference of a payment, or its channel.
unfoldable pub referencia_or_canal : Payment → Text
referencia_or_canal p = elim p.referencia [ none ↦ p.canal | some r ↦ r ]

unfoldable pub movimiento_less : CuentaCorrienteMovimientoDto → CuentaCorrienteMovimientoDto → Bool
unfolding text_eq text_ltb
movimiento_less a b =
    if not (text_eq a.fecha_efectiva b.fecha_efectiva)
    then text_ltb a.fecha_efectiva b.fecha_efectiva
    else if not (a.created_at == b.created_at)
    then ltb a.created_at b.created_at
    else text_ltb a.id b.id

-- `saldo += DebitCents - CreditCents`
unfoldable pub saldo_loop : ℤ → List CuentaCorrienteMovimientoDto → ℤ
saldo_loop acc [] = acc
saldo_loop acc (m ∷ ms) = saldo_loop (add64 acc (sub64 m.debit_cents m.credit_cents)) ms

sin_created_at : CuentaCorrienteMovimientoDto → CuentaCorrienteMovimientoDto
sin_created_at m = record m { created_at = 0 }

module _ (env : Env) where
  unfoldable pub movimiento_of_charge : Charge → CuentaCorrienteMovimientoDto
  unfolding format_date
  movimiento_of_charge c = record {
    id = env.uuid_string c.id;
    unidad_id = env.uuid_string c.unidad_id;
    tipo = codes "cargo";
    fecha_efectiva = format_date c.due_date;
    debit_cents = c.total_cents;
    credit_cents = pos 0;
    currency = codes "ARS";
    referencia = some c.concepto;
    created_at = c.created_at;
  }

  unfoldable pub movimiento_of_payment : Payment → CuentaCorrienteMovimientoDto
  unfolding format_date referencia_or_canal
  movimiento_of_payment p = record {
    id = env.uuid_string p.id;
    unidad_id = env.uuid_string p.unidad_id;
    tipo = codes "cobranza";
    fecha_efectiva = format_date p.fecha;
    debit_cents = pos 0;
    credit_cents = p.importe_cents;
    currency = codes "ARS";
    referencia = some (referencia_or_canal p);
    created_at = p.created_at;
  }

  -- The payments that the loop does not skip.
  unfoldable pub counted_payment : Uuid → Payment → Bool
  unfolding text_eq
  counted_payment uid p =
      text_eq (env.uuid_string p.unidad_id) (env.uuid_string uid)
      && payment_estado_eq p.estado acreditado

  unfoldable pub movimientos : Uuid → List Charge → List Payment → List CuentaCorrienteMovimientoDto
  unfolding movimiento_of_charge movimiento_of_payment counted_payment movimiento_less sort_by
      select
  movimientos uid charges payments = sort_by movimiento_less (
      map movimiento_of_charge charges
      ++ map movimiento_of_payment (select (counted_payment uid) payments))

  unfoldable pub get_cuenta_corriente : Text → Text → Action Db CuentaCorrienteDto
  unfolding list_charges_by_unidad list_cobranzas movimientos saldo_loop trim_space sin_created_at
  get_cuenta_corriente consorcio_id unidad_id = do
    cid ← or_raise (env.scan_uuid (trim_space consorcio_id)) cobranza_invalid
    uid ← or_raise (env.scan_uuid (trim_space unidad_id)) cobranza_invalid
    charges ← gets (list_charges_by_unidad uid)
    payments ← gets (list_cobranzas cid)
    pure (record {
      movimientos = map sin_created_at (movimientos uid charges payments);
      saldo_cents = saldo_loop (pos 0) (movimientos uid charges payments);
    })
