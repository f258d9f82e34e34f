-- ===== src/Expensas/Agrupar.antt =====
-- internal/expensas/transiciones.go, agruparConceptos: the expenses of a month by concept.
pub mod Suma
use consorcioabierto.Prelude.{
  ℕ, Bool, true, false, Option, none, some, List, [], ◌∷◌, ◌++◌, map, ◌&&◌, ◌||◌, not, ◌==◌,
  if◌then◌else◌, select, take, drop,
}
use consorcioabierto.Prelude.Int.{ℤ, pos, ltb_ℤ, leb_ℤ}
use consorcioabierto.Prelude.Int64.{add64}
use consorcioabierto.Prelude.Text.{Text, codes, text_eq, is_empty}
use consorcioabierto.Action.{
  Action, Result, ok, err, pure, gets, lift, or_raise, raise_if, ◌>>=◌, ◌>>◌, liquidacion_invalid,
  liquidacion_not_found, liquidacion_transicion_invalida, liquidacion_version_mismatch,
  liquidacion_sin_gastos, liquidacion_sin_ufs, idempotency_conflict, no_rows, json_error,
}
use consorcioabierto.Env.{Uuid, Env, Floats}
use consorcioabierto.Store.{
  Db, Gasto, GastoEstado, registrado, pagado, gasto_anulado, Unidad, Liquidacion, LiquidacionDto,
  LiquidacionUnidad, Charge, Estado, borrador, calculada, confirmada, publicada, cerrada, anulada,
  sin_estado, estado_eq, Json, empty_object, liquidacion_json, cobranza_json,
}
use consorcioabierto.Queries.Gastos.{list_gastos, list_unidades_activas}
use consorcioabierto.Queries.Liquidaciones.{
  transition_liquidacion, anular_liquidacion, update_liquidacion_calculo,
}
use consorcioabierto.Queries.Snapshot.{
  delete_liquidacion_gastos, delete_liquidacion_items, delete_liquidacion_unidades,
  get_liquidacion_unidades, insert_liquidacion_gasto, insert_liquidacion_item,
  insert_liquidacion_unidad,
}
use consorcioabierto.Queries.Charges.{get_charges_by_liquidacion}
use consorcioabierto.Queries.Idempotency.{
  get_idempotency_key, insert_idempotency_key, update_idempotency_key, insert_outbox_event,
}
use consorcioabierto.CuentaCorriente.{UnidadCobro, create_cargos, revertir_cargo}
use consorcioabierto.Expensas.Calculo.{ConceptoCalculo}

-- `out[idx[key]].ImporteCents += ...`, or a new concept at the end of `out`
unfoldable pub agregar : Text → ℤ → List ConceptoCalculo → List ConceptoCalculo
unfolding text_eq
agregar key importe [] =
    record { concepto_id = key; regla = codes "coeficiente"; importe_cents = importe } ∷ []
agregar key importe (c ∷ cs) =
    let rest = agregar key importe cs in
    if text_eq c.concepto_id key
    then record c { importe_cents = add64 c.importe_cents importe } ∷ cs
    else c ∷ rest

module _ (env : Env) where
  unfoldable pub agrupar_en : List ConceptoCalculo → List Gasto → List ConceptoCalculo
  unfolding agregar
  agrupar_en out [] = out
  agrupar_en out (g ∷ gs) =
      agrupar_en (agregar (env.uuid_string g.concepto_id) g.importe_cents out) gs

  unfoldable pub agrupar_conceptos : List Gasto → List ConceptoCalculo
  unfolding agrupar_en
  agrupar_conceptos gastos = agrupar_en [] gastos
