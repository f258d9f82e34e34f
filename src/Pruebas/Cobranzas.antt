-- ===== src/Pruebas/Cobranzas.antt =====
-- Payments run on concrete data.
use consorcioabierto.Prelude.{some, none, ◌≡◌, refl, List, [], ◌∷◌, arith, All}
use consorcioabierto.Prelude.Int.{ℤ, pos, ◌+ℤ◌, ◌<ℤ◌}
use consorcioabierto.Prelude.Int64.{add64, sub64}
use mathlib.Core.List.{Mem}
use consorcioabierto.Action.{ok, err}
use consorcioabierto.Env.{Uuid}
use consorcioabierto.Cobranzas.Asignaciones.Orden.{PorVencimiento, EstaAbierto}
use consorcioabierto.Store.{Db, Charge, Payment, PaymentAllocation, acreditado}
use consorcioabierto.Queries.Charges.{list_open_charges_by_unidad}
use consorcioabierto.Queries.Payments.{list_payment_allocations_by_payment}
use consorcioabierto.Cobranzas.Detalle.{AcreditacionDto, detalle_of, saldo_a_favor_from_payment}
use consorcioabierto.Cobranzas.Asignaciones.{
  AsignacionInput, build_allocations, build_fifo_allocations, build_explicit_allocations,
}
use consorcioabierto.Cobranzas.Asignaciones.Fifo.{Paid}
use consorcioabierto.Cobranzas.Asignaciones.Total.{
  fifo_paga, sum_amounts, sum_saldos, with_allocations,
}
use consorcioabierto.Cobranzas.Acreditacion.{acreditar, acreditar_nueva, parse_uuid}
use consorcioabierto.Cobranzas.Acreditacion.Estados.{Acreditado, acreditar_dos_veces}
use consorcioabierto.Cobranzas.Entrada.{CobranzaInput, ValidatedCobranza, validate_cobranza_input}
use consorcioabierto.Cobranzas.Entrada.Valida.{IsValid, validate-IsValid}
use consorcioabierto.Prelude.Text.{codes}
use consorcioabierto.Store.{AccountEntry, reversa}
use consorcioabierto.Queries.Charges.{get_charge}
use consorcioabierto.CuentaCorriente.{
  AccountEntryDto, account_entry_dto, unidad_or_own, revertir_cargo,
}
use consorcioabierto.CuentaCorriente.Reversa.{
  IsReversa, with_reversa, zeroed, cancelled, revertir_cargo_acredita,
}
use consorcioabierto.Pruebas.Datos.{env_de_prueba, db_de_prueba, pago, cargo_viejo}

abbrev fifo : (List PaymentAllocation × ℤ) × Db
unfolding build_fifo_allocations
fifo = elim (build_fifo_allocations pago 60 db_de_prueba) [
  | ok r ↦ r
  | err e ↦ (([], pos 0), db_de_prueba)
]

fifo-ok : build_fifo_allocations pago 60 db_de_prueba ≡ ok ((fifo.0.0, fifo.0.1), fifo.1)
unfolding build_fifo_allocations fifo sub64
fifo-ok = refl

fifo_paga_example :
    let charges = list_open_charges_by_unidad 10 20240701 db_de_prueba in
    Paid (pos 800) charges fifo.0.0 fifo.0.1
    × (sum_amounts fifo.0.0 +ℤ fifo.0.1 ≡ pos 800)
    × (pos 0 <ℤ fifo.0.1 → sum_amounts fifo.0.0 ≡ sum_saldos charges)
    × (fifo.1 ≡ with_allocations fifo.0.0 db_de_prueba)
    × PorVencimiento charges
    × All (λ c. EstaAbierto 10 20240701 db_de_prueba c × Mem c db_de_prueba.charges) charges
    × ((c : Charge)
        → EstaAbierto 10 20240701 db_de_prueba c
        → Mem c db_de_prueba.charges
        → Mem c charges)
fifo_paga_example =
    fifo_paga pago 60 db_de_prueba fifo.0.0 fifo.0.1 fifo.1 (omega arith) (omega arith) fifo-ok

abbrev pedido : List AsignacionInput
pedido =
    record { charge_id = 41 ∷ []; amount_cents = pos 250 }
    ∷ record { charge_id = 40 ∷ []; amount_cents = pos 300 }
    ∷ []

abbrev explicitas : (List PaymentAllocation × ℤ) × Db
unfolding build_explicit_allocations
explicitas = elim (build_explicit_allocations env_de_prueba pago pedido 60 db_de_prueba) [
  | ok r ↦ r
  | err e ↦ (([], pos 0), db_de_prueba)
]

abbrev acreditada : AcreditacionDto × Db
unfolding acreditar acreditar_nueva build_allocations
acreditada = elim (acreditar env_de_prueba (50 ∷ []) (60 ∷ []) pedido db_de_prueba) [
  | ok r ↦ r
  | err e ↦ (detalle_of env_de_prueba pago [] (pos 0), db_de_prueba)
]

acreditada-ok :
    acreditar env_de_prueba (50 ∷ []) (60 ∷ []) pedido db_de_prueba
    ≡ ok (acreditada.0, acreditada.1)
unfolding acreditar acreditar_nueva build_allocations build_explicit_allocations acreditada add64
acreditada-ok = refl

acreditar_dos_veces_example :
    (pid : Uuid) × (p : Payment) × Acreditado pid acreditada.1 p
    × (let allocs = list_payment_allocations_by_payment pid acreditada.1 in
        acreditar env_de_prueba (50 ∷ []) (60 ∷ []) [] acreditada.1
        ≡ ok
            (detalle_of env_de_prueba p allocs (saldo_a_favor_from_payment p allocs), acreditada.1))
unfolding parse_uuid
acreditar_dos_veces_example =
    acreditar_dos_veces env_de_prueba (50 ∷ []) (60 ∷ []) (60 ∷ []) pedido [] db_de_prueba
      acreditada.1 acreditada.0 60 refl acreditada-ok

abbrev pago_acreditado : Payment
pago_acreditado = record pago { estado = acreditado }

abbrev pedido_de_alta : CobranzaInput
pedido_de_alta = record {
  unidad_id = 70 ∷ [];
  fecha = codes " 2024-07-01 ";
  canal = some (codes "Efectivo");
  importe = record { amount_cents = pos 800; currency = codes "ars" };
  referencia = some (codes "  ");
}

abbrev alta_valida : ValidatedCobranza
alta_valida = record {
  unidad_id = 70;
  fecha = 20240701;
  canal = codes "efectivo";
  importe = pos 800;
  referencia = none;
  currency = codes "ARS";
}

alta-ok : validate_cobranza_input env_de_prueba pedido_de_alta ≡ ok alta_valida
unfolding validate_cobranza_input
alta-ok = refl

validate-IsValid_example : IsValid env_de_prueba pedido_de_alta alta_valida
validate-IsValid_example = validate-IsValid env_de_prueba pedido_de_alta alta_valida alta-ok

abbrev reversado : AccountEntryDto × Db
unfolding revertir_cargo
reversado = elim (revertir_cargo env_de_prueba (40 ∷ []) (10 ∷ []) (codes "ARS") db_de_prueba) [
  | ok r ↦ r
  | err e ↦ (reversa_vacia, db_de_prueba)
]
  where
    reversa_vacia : AccountEntryDto
    reversa_vacia = record {
      id = [];
      unidad_id = [];
      tipo = reversa;
      fecha_efectiva = [];
      debit_cents = pos 0;
      credit_cents = pos 0;
      currency = [];
      referencia = none;
    }

reversado-ok :
    revertir_cargo env_de_prueba (40 ∷ []) (10 ∷ []) (codes "ARS") db_de_prueba
    ≡ ok (reversado.0, reversado.1)
unfolding revertir_cargo reversado
reversado-ok = refl

cargo_esta : get_charge 40 db_de_prueba ≡ some cargo_viejo
unfolding get_charge
cargo_esta = refl

revertir_cargo_acredita_example :
    (e : AccountEntry) × IsReversa env_de_prueba
      (unidad_or_own env_de_prueba (10 ∷ []) cargo_viejo)
      cargo_viejo
      e
    × (reversado.0 ≡ account_entry_dto env_de_prueba e)
    × (reversado.1 ≡ with_reversa e (zeroed 40 db_de_prueba))
    × (get_charge 40 reversado.1 ≡ some (cancelled cargo_viejo))
revertir_cargo_acredita_example =
    revertir_cargo_acredita env_de_prueba (40 ∷ []) (10 ∷ []) (codes "ARS") db_de_prueba 40
      cargo_viejo reversado.0 reversado.1 refl cargo_esta reversado-ok
