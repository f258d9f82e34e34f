-- ===== src/Cobranzas/Acreditacion.antt =====
-- internal/cobranzas/acreditacion.go: to credit a payment, to revert it, and to set its allocations.
pub mod Estados
use consorcioabierto.Prelude.{Bool, Option, none, some, List, [], ◌∷◌, not, if◌then◌else◌}
use consorcioabierto.Prelude.Int.{ℤ, pos}
use consorcioabierto.Prelude.Text.{Text, trim_space}
use consorcioabierto.Action.{
  Action, ok, err, pure, gets, or_raise, ◌>>=◌, ◌>>◌, cobranza_invalid, cobranza_not_found, no_rows,
}
use consorcioabierto.Env.{Uuid, Env}
use consorcioabierto.Store.{
  Db, Payment, PaymentAllocation, PaymentEstado, acreditado, revertido, payment_estado_eq,
}
use consorcioabierto.Queries.Payments.{
  get_cobranza, update_cobranza_estado, list_payment_allocations_by_payment,
  delete_payment_allocations_by_payment,
}
use consorcioabierto.Cobranzas.Detalle.{
  AcreditacionDto, cobranza_dto, allocation_rows_to_dto, detalle_of, saldo_a_favor_from_payment,
}
use consorcioabierto.Cobranzas.Asignaciones.{
  AsignacionInput, build_allocations, build_explicit_allocations,
}

module _ (env : Env) where
  -- `parseUUID`
  unfoldable pub parse_uuid : Text → Option Uuid
  unfolding trim_space
  parse_uuid value = env.scan_uuid (trim_space value)

  -- Credits a payment that is not credited yet.
  unfoldable pub acreditar_nueva :
      Payment → Uuid → Uuid → List AsignacionInput → Action Db AcreditacionDto
  unfolding build_allocations update_cobranza_estado get_cobranza detalle_of
  acreditar_nueva payment pid actor asignaciones = do
    (allocs, saldo) ← build_allocations env payment asignaciones actor
    update_cobranza_estado acreditado none pid
    found ← gets (get_cobranza pid)
    updated ← or_raise found no_rows
    pure (detalle_of env updated allocs saldo)

  unfoldable pub acreditar : Text → Text → List AsignacionInput → Action Db AcreditacionDto
  unfolding parse_uuid get_cobranza list_payment_allocations_by_payment detalle_of
      saldo_a_favor_from_payment acreditar_nueva
  acreditar payment_id created_by asignaciones = do
    pid ← or_raise (parse_uuid payment_id) cobranza_invalid
    actor ← or_raise (parse_uuid created_by) cobranza_invalid
    found ← gets (get_cobranza pid)
    payment ← or_raise found cobranza_not_found
    allocs ← gets (list_payment_allocations_by_payment pid)
    if payment_estado_eq payment.estado acreditado
        then pure (detalle_of env payment allocs (saldo_a_favor_from_payment payment allocs))
        else acreditar_nueva payment pid actor asignaciones

  unfoldable pub revertir : Text → Text → Action Db AcreditacionDto
  unfolding parse_uuid get_cobranza list_payment_allocations_by_payment
      delete_payment_allocations_by_payment update_cobranza_estado cobranza_dto
      allocation_rows_to_dto
  revertir payment_id created_by = do
    pid ← or_raise (parse_uuid payment_id) cobranza_invalid
    or_raise (parse_uuid created_by) cobranza_invalid
    found ← gets (get_cobranza pid)
    or_raise found cobranza_not_found
    allocs ← gets (list_payment_allocations_by_payment pid)
    delete_payment_allocations_by_payment pid
    update_cobranza_estado revertido none pid
    found' ← gets (get_cobranza pid)
    updated ← or_raise found' no_rows
    pure (record {
      cobranza = cobranza_dto env updated [];
      asignaciones = allocation_rows_to_dto env allocs;
      saldo_a_favor_cents = pos 0;
    })

  -- The update where the payment is not credited yet.
  unfoldable pub acreditar_estado : Payment → Uuid → Action Db Payment
  unfolding update_cobranza_estado
  acreditar_estado payment pid =
      if not (payment_estado_eq payment.estado acreditado)
      then update_cobranza_estado acreditado none pid
        >> pure (record payment { estado = acreditado })
      else pure payment

  unfoldable pub ajustar : Text → Text → List AsignacionInput → Action Db AcreditacionDto
  unfolding parse_uuid get_cobranza delete_payment_allocations_by_payment build_explicit_allocations
      acreditar_estado detalle_of
  ajustar payment_id created_by asignaciones = do
    pid ← or_raise (parse_uuid payment_id) cobranza_invalid
    actor ← or_raise (parse_uuid created_by) cobranza_invalid
    found ← gets (get_cobranza pid)
    payment ← or_raise found cobranza_not_found
    delete_payment_allocations_by_payment pid
    (allocs, saldo) ← build_explicit_allocations env payment asignaciones actor
    payment' ← acreditar_estado payment pid
    pure (detalle_of env payment' allocs saldo)
