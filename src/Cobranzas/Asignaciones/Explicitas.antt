-- ===== src/Cobranzas/Asignaciones/Explicitas.antt =====
-- What the allocations that a caller names give.
use consorcioabierto.Prelude.{some, ◌≡◌, List, [], ◌∷◌}
use consorcioabierto.Prelude.Int.{ℤ, pos, ◌+ℤ◌}
use consorcioabierto.Prelude.Text.{trim_space}
use consorcioabierto.Env.{Uuid, Env}
use consorcioabierto.Store.{PaymentAllocation}
use consorcioabierto.Cobranzas.Asignaciones.{AsignacionInput}

abbrev pub sum_inputs : List AsignacionInput → ℤ
sum_inputs [] = pos 0
sum_inputs (i ∷ is) = i.amount_cents +ℤ sum_inputs is

-- A row for each allocation that is named, in order: on the charge named, of the amount named, and of
-- the payment.
abbrev pub Guardadas : Env → Uuid → List AsignacionInput → List PaymentAllocation → Type 0
Guardadas env payment [] [] = Unit {0}
Guardadas env payment [] (a ∷ rows) = ⊥
Guardadas env payment (i ∷ is) [] = ⊥
Guardadas env payment (i ∷ is) (a ∷ rows) =
    (env.scan_uuid (trim_space i.charge_id) ≡ some a.charge_id)
    × (a.amount_cents ≡ i.amount_cents)
    × (a.payment_id ≡ payment)
    × Guardadas env payment is rows
