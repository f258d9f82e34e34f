-- ===== src/Cobranzas/Asignaciones.antt =====
-- internal/cobranzas/acreditacion.go: the allocations of a payment, oldest charge first or as the
-- caller says.
pub mod Fifo
pub mod Orden
pub mod Total
pub mod Explicitas
use consorcioabierto.Prelude.{Bool, Option, none, some, List, [], ◌∷◌, if◌then◌else◌}
use consorcioabierto.Prelude.Int.{ℤ, pos, leb_ℤ, ltb_ℤ}
use consorcioabierto.Prelude.Int64.{add64, sub64}
use consorcioabierto.Prelude.Text.{Text, trim_space}
use consorcioabierto.Action.{
  Action, ok, err, pure, gets, or_raise, raise_if, ◌>>=◌, ◌>>◌, cobranza_invalid,
}
use consorcioabierto.Env.{Uuid, Env}
use consorcioabierto.Store.{Db, Payment, PaymentAllocation, Charge}
use consorcioabierto.Queries.Charges.{list_open_charges_by_unidad}
use consorcioabierto.Queries.Payments.{insert_payment_allocation}

pub record AsignacionInput : Type 0 where
  pub charge_id : Text
  pub amount_cents : ℤ

-- What a charge takes of what remains.
unfoldable pub fifo_amount : ℤ → Charge → ℤ
fifo_amount remaining charge =
    if ltb_ℤ remaining charge.saldo_cents then remaining else charge.saldo_cents

-- Allocates an amount to a charge, and goes on with the charges after it.
unfoldable pub fifo_step :
    Payment
    → Uuid
    → ℤ
    → Charge
    → Action Db (List PaymentAllocation × ℤ)
    → Action Db (List PaymentAllocation × ℤ)
unfolding insert_payment_allocation
fifo_step payment actor amount charge rest = do
  alloc ← insert_payment_allocation payment.id charge.id amount actor
  (allocs, left) ← rest
  pure (alloc ∷ allocs, left)

-- The loop of `buildFIFOAllocations` from `remaining`.
unfoldable pub fifo_loop : Payment → Uuid → ℤ → List Charge → Action Db (List PaymentAllocation × ℤ)
unfolding fifo_amount fifo_step
fifo_loop payment actor remaining [] = pure ([], remaining)
fifo_loop payment actor remaining (charge ∷ charges) =
    let amount = fifo_amount remaining charge in
    let skipped = fifo_loop payment actor remaining charges in
    let rest = fifo_loop payment actor (sub64 remaining amount) charges in
    if leb_ℤ remaining (pos 0)
    then pure ([], remaining)
    else if leb_ℤ amount (pos 0)
    then skipped
    else fifo_step payment actor amount charge rest

unfoldable pub build_fifo_allocations : Payment → Uuid → Action Db (List PaymentAllocation × ℤ)
unfolding fifo_loop list_open_charges_by_unidad
build_fifo_allocations payment actor = do
  charges ← gets (list_open_charges_by_unidad payment.unidad_id payment.fecha)
  fifo_loop payment actor payment.importe_cents charges

module _ (env : Env) where
  -- The loop of `buildExplicitAllocations` from `total`.
  unfoldable pub explicit_loop :
      Payment → Uuid → ℤ → List AsignacionInput → Action Db (List PaymentAllocation × ℤ)
  unfolding insert_payment_allocation trim_space
  explicit_loop payment actor total [] = pure ([], total)
  explicit_loop payment actor total (i ∷ is) = do
    charge_id ← or_raise (env.scan_uuid (trim_space i.charge_id)) cobranza_invalid
    raise_if (leb_ℤ i.amount_cents (pos 0)) cobranza_invalid
    alloc ← insert_payment_allocation payment.id charge_id i.amount_cents actor
    (allocs, total') ← explicit_loop payment actor (add64 total i.amount_cents) is
    pure (alloc ∷ allocs, total')

  unfoldable pub build_explicit_allocations :
      Payment → List AsignacionInput → Uuid → Action Db (List PaymentAllocation × ℤ)
  unfolding explicit_loop
  build_explicit_allocations payment [] actor = pure ([], payment.importe_cents)
  build_explicit_allocations payment (i ∷ is) actor = do
    (allocs, total) ← explicit_loop payment actor (pos 0) (i ∷ is)
    raise_if (ltb_ℤ payment.importe_cents total) cobranza_invalid
    pure (allocs, sub64 payment.importe_cents total)

  unfoldable pub build_allocations :
      Payment → List AsignacionInput → Uuid → Action Db (List PaymentAllocation × ℤ)
  unfolding build_explicit_allocations build_fifo_allocations
  build_allocations payment [] actor = build_fifo_allocations payment actor
  build_allocations payment (i ∷ is) actor = build_explicit_allocations payment (i ∷ is) actor
