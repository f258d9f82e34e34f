-- ===== src/Expensas/Transiciones/Confirmada.antt =====
-- About `ConfirmarLiquidacion` of internal/expensas/transiciones.go, and a second call of it.
use consorcioabierto.Prelude.{List}
use consorcioabierto.Prelude.Text.{Text}
use consorcioabierto.Store.{Db, Liquidacion}
use consorcioabierto.Env.{Uuid, Env}
use consorcioabierto.Queries.Snapshot.{get_liquidacion_unidades}
use consorcioabierto.CuentaCorriente.{UnidadCobro}
use consorcioabierto.Expensas.Liquidacion.{liquidacion_dto}
use consorcioabierto.Expensas.Transiciones.{to_unidad_cobro}

module _ (env : Env) where
  -- What is to be charged: the units of the snapshot, in the order in which they were read.
  abbrev pub por_cobrar : Text → Uuid → Liquidacion → Db → List UnidadCobro
  por_cobrar id lid row db =
      to_unidad_cobro env (get_liquidacion_unidades lid db) row.periodo id
        (liquidacion_dto env row).vencimiento_1
