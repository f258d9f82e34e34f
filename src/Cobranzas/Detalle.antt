-- ===== src/Cobranzas/Detalle.antt =====
-- internal/cobranzas/cobranzas.go: how a payment is shown, with what it leaves in favour of the unit.
use consorcioabierto.Prelude.{List, [], ◌∷◌, map, not, if◌then◌else◌}
use consorcioabierto.Prelude.Int.{ℤ, pos, ltb_ℤ}
use consorcioabierto.Prelude.Int64.{add64, sub64}
use consorcioabierto.Prelude.Text.{Text, codes, trim_space}
use consorcioabierto.Prelude.Dates.{format_date}
use consorcioabierto.Action.{
  Action, pure, gets, or_raise, ◌>>=◌, cobranza_invalid, cobranza_not_found,
}
use consorcioabierto.Env.{Env}
use consorcioabierto.Store.{
  Db, Payment, PaymentAllocation, acreditado, payment_estado_eq, CobranzaDto,
}
use consorcioabierto.Queries.Payments.{
  get_cobranza, list_cobranzas, list_payment_allocations_by_payment,
}

pub record AsignacionDto : Type 0 where
  pub charge_id : Text
  pub amount_cents : ℤ

pub record AcreditacionDto : Type 0 where
  pub cobranza : CobranzaDto
  pub asignaciones : List AsignacionDto
  pub saldo_a_favor_cents : ℤ

-- `allocated += a.AmountCents`
unfoldable pub allocated : ℤ → List PaymentAllocation → ℤ
allocated acc [] = acc
allocated acc (a ∷ rest) = allocated (add64 acc a.amount_cents) rest

unfoldable pub saldo_a_favor_from_payment : Payment → List PaymentAllocation → ℤ
unfolding allocated
saldo_a_favor_from_payment row allocations =
    if not (payment_estado_eq row.estado acreditado)
    then pos 0
    else (let remaining = sub64 row.importe_cents (allocated (pos 0) allocations) in
        if ltb_ℤ remaining (pos 0) then pos 0 else remaining)

module _ (env : Env) where
  unfoldable pub cobranza_dto : Payment → List PaymentAllocation → CobranzaDto
  unfolding saldo_a_favor_from_payment format_date
  cobranza_dto row allocations = record {
    id = env.uuid_string row.id;
    unidad_id = env.uuid_string row.unidad_id;
    fecha = format_date row.fecha;
    canal = row.canal;
    importe = record { amount_cents = row.importe_cents; currency = codes "ARS" };
    referencia = row.referencia;
    estado = row.estado;
    saldo_a_favor_cents = saldo_a_favor_from_payment row allocations;
    psp_provider = row.psp_provider;
    psp_preference_id = row.psp_preference_id;
    psp_checkout_url = row.psp_checkout_url;
    created_at = row.created_at;
  }

  unfoldable pub allocation_rows_to_dto : List PaymentAllocation → List AsignacionDto
  allocation_rows_to_dto rows =
      map (λ a. record { charge_id = env.uuid_string a.charge_id; amount_cents = a.amount_cents })
        rows

  cobranza_with_allocations : Db → Payment → CobranzaDto
  unfolding cobranza_dto list_payment_allocations_by_payment
  cobranza_with_allocations db row =
      cobranza_dto row (list_payment_allocations_by_payment row.id db)

  unfoldable pub list : Text → Action Db (List CobranzaDto)
  unfolding list_cobranzas cobranza_with_allocations
  list consorcio_id = do
    cid ← or_raise (env.scan_uuid consorcio_id) cobranza_invalid
    rows ← gets (list_cobranzas cid)
    gets (λ db. map (cobranza_with_allocations db) rows)

  -- A payment as it is stored, with its allocations.
  unfoldable pub detalle_of : Payment → List PaymentAllocation → ℤ → AcreditacionDto
  unfolding cobranza_dto allocation_rows_to_dto
  detalle_of row allocs saldo = record {
    cobranza = cobranza_dto row allocs;
    asignaciones = allocation_rows_to_dto allocs;
    saldo_a_favor_cents = saldo;
  }

  unfoldable pub get_detalle : Text → Action Db AcreditacionDto
  unfolding get_cobranza list_payment_allocations_by_payment detalle_of saldo_a_favor_from_payment
      trim_space
  get_detalle payment_id = do
    pid ← or_raise (env.scan_uuid (trim_space payment_id)) cobranza_invalid
    found ← gets (get_cobranza pid)
    row ← or_raise found cobranza_not_found
    allocs ← gets (list_payment_allocations_by_payment pid)
    pure (detalle_of row allocs (saldo_a_favor_from_payment row allocs))
