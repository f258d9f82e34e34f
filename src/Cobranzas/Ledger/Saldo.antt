-- ===== src/Cobranzas/Ledger/Saldo.antt =====
-- The balance of a unit.
use consorcioabierto.Prelude.{List, [], ◌∷◌, ◌==◌, if◌then◌else◌}
use consorcioabierto.Prelude.Int.{ℤ, pos, ◌+ℤ◌, ◌-ℤ◌}
use consorcioabierto.Env.{Uuid, Env}
use consorcioabierto.Store.{Charge, Payment, PaymentEstado, acreditado}
use consorcioabierto.Cobranzas.Ledger.{CuentaCorrienteMovimientoDto}

-- The exact sums.
abbrev pub sum_totals : List Charge → ℤ
sum_totals [] = pos 0
sum_totals (c ∷ cs) = c.total_cents +ℤ sum_totals cs

abbrev pub sum_importes_pagos : List Payment → ℤ
sum_importes_pagos [] = pos 0
sum_importes_pagos (p ∷ ps) = p.importe_cents +ℤ sum_importes_pagos ps

abbrev importe_de : PaymentEstado → ℤ → ℤ
importe_de acreditado importe = importe
importe_de _ importe = pos 0

-- What the payments of a unit pay that are in the state `acreditado`.
abbrev pub sum_acreditados : Uuid → List Payment → ℤ
sum_acreditados uid [] = pos 0
sum_acreditados uid (p ∷ ps) =
    (if p.unidad_id == uid then importe_de p.estado p.importe_cents else pos 0)
    +ℤ sum_acreditados uid ps

abbrev neto : List CuentaCorrienteMovimientoDto → ℤ
neto [] = pos 0
neto (m ∷ ms) = m.debit_cents -ℤ m.credit_cents +ℤ neto ms
