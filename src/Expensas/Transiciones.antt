-- ===== src/Expensas/Transiciones.antt =====
-- internal/expensas/transiciones.go: to calculate, confirm, publish and annul a settlement. The
-- state is that of the handler's transaction.
use consorcioabierto.Prelude.{
  ℕ, Bool, true, false, none, some, List, [], ◌∷◌, ◌++◌, map, ◌&&◌, ◌||◌, not, ◌==◌, if◌then◌else◌,
  select, take, drop,
}
use consorcioabierto.Prelude.Int.{pos, ltb_ℤ, leb_ℤ}
use consorcioabierto.Prelude.Text.{Text, codes}
use consorcioabierto.Action.{
  Action, pure, gets, lift, or_raise, raise_if, ◌>>=◌, ◌>>◌, liquidacion_invalid,
  liquidacion_not_found, liquidacion_transicion_invalida, liquidacion_version_mismatch,
  liquidacion_sin_gastos, liquidacion_sin_ufs,
}
use consorcioabierto.Env.{Uuid, Env, Floats}
use consorcioabierto.Store.{
  Db, Gasto, registrado, pagado, gasto_anulado, Unidad, LiquidacionDto, LiquidacionUnidad, Charge,
  Estado, borrador, calculada, confirmada, publicada, cerrada, anulada, estado_eq,
}
use consorcioabierto.Queries.Gastos.{list_gastos, list_unidades_activas}
use consorcioabierto.Queries.Liquidaciones.{
  transition_liquidacion, anular_liquidacion, update_liquidacion_calculo,
}
use consorcioabierto.Queries.Snapshot.{
  delete_liquidacion_gastos, delete_liquidacion_items, delete_liquidacion_unidades,
  get_liquidacion_unidades, insert_liquidacion_gasto, insert_liquidacion_item,
  insert_liquidacion_unidad,
}
use consorcioabierto.Queries.Charges.{get_charges_by_liquidacion}
use consorcioabierto.Queries.Idempotency.{insert_outbox_event}
use consorcioabierto.CuentaCorriente.{UnidadCobro, create_cargos, revertir_cargo}
use consorcioabierto.Expensas.Calculo.{
  ConceptoCalculo, UfCoef, UnidadDistribucion, DistribucionResult, distribuir,
}
use consorcioabierto.Expensas.Liquidacion
use consorcioabierto.Expensas.Agrupar.{agrupar_conceptos}
use consorcioabierto.Expensas.Idempotencia.{
  scope_calcular, scope_confirmar, scope_publicar, stamp_if, save_idempotency, cached_or,
}
pub mod Confirmada
pub mod Fin
pub mod Publicada

abbrev pub is_registrado : Gasto → Bool
is_registrado g = elim g.estado [ registrado ↦ true | pagado ↦ false | gasto_anulado ↦ false ]

-- `toUnidadCobro`: the units whose total is positive.
unfoldable pub to_unidad_cobro :
    Env → List LiquidacionUnidad → Text → Text → Text → List UnidadCobro
unfolding select
to_unidad_cobro env rows periodo liquidacion_id vencimiento_1 =
    map
      (λ row. record {
        unidad_id = env.uuid_string row.unidad_id;
        concepto = codes "Expensa " ++ periodo;
        due_date = vencimiento_1;
        total_cents = row.total_cents;
        liquidacion_id = some liquidacion_id;
      })
      (select (λ row. not (leb_ℤ row.total_cents (pos 0))) rows)

unfoldable pub is_empty_list : {A : Type 0} → List A → Bool
is_empty_list [] = true
is_empty_list (x ∷ xs) = false

module _ (env : Env) where
  -- The end of each operation: the transition with its version, the row read back, and its storage
  -- under the key.
  unfoldable pub finish :
      Text → Estado → Text → Text → Uuid → Uuid → Estado → ℕ → Text → Action Db LiquidacionDto
  unfolding transition_liquidacion Liquidacion.get save_idempotency
  finish scope nuevo consorcio_id liquidacion_id cid lid actual expected idem_key = do
    n ← transition_liquidacion nuevo cid lid actual expected
    raise_if (n == 0) liquidacion_version_mismatch
    dto ← Liquidacion.get env consorcio_id liquidacion_id
    save_idempotency scope idem_key dto
    pure dto

  insert_gastos : Uuid → List Gasto → Action Db (Unit {0})
  unfolding insert_liquidacion_gasto
  insert_gastos lid [] = pure tt
  insert_gastos lid (g ∷ gs) = do
    insert_liquidacion_gasto lid g.id g.concepto_id g.importe_cents
    insert_gastos lid gs

  insert_items : Uuid → List ConceptoCalculo → Action Db (Unit {0})
  unfolding insert_liquidacion_item
  insert_items lid [] = pure tt
  insert_items lid (i ∷ is) = do
    insert_liquidacion_item lid (env.scan_uuid i.concepto_id) i.regla i.importe_cents
    insert_items lid is

  module _ (f : Floats) where
    insert_unidades : Uuid → List (UnidadDistribucion f.Float) → Action Db (Unit {0})
    unfolding insert_liquidacion_unidad
    insert_unidades lid [] = pure tt
    insert_unidades lid (u ∷ us) = do
      insert_liquidacion_unidad lid (env.scan_uuid u.unidad_id) u.codigo
          (f.float_numeric u.coeficiente) u.total_cents
      insert_unidades lid us

    unfoldable pub uf_coef : Unidad → UfCoef f.Float
    uf_coef u = record {
      unidad_id = env.uuid_string u.id;
      codigo = u.codigo;
      coeficiente = f.numeric_float u.coeficiente;
    }

    -- The new snapshot in place of the one before.
    unfoldable pub replace_snapshot :
        Uuid → List Gasto → DistribucionResult f.Float → Action Db (Unit {0})
    unfolding delete_liquidacion_gastos delete_liquidacion_items delete_liquidacion_unidades
        insert_gastos insert_items insert_unidades update_liquidacion_calculo
    replace_snapshot lid registrados result = do
      delete_liquidacion_gastos lid
      delete_liquidacion_items lid
      delete_liquidacion_unidades lid
      insert_gastos lid registrados
      insert_items lid result.items
      insert_unidades lid result.unidades
      update_liquidacion_calculo result.total_gastos_cents result.total_distribuido_cents
          result.unidades_alcanzadas lid

    unfoldable pub calcular : Text → Text → ℕ → Text → Action Db LiquidacionDto
    unfolding Liquidacion.get list_gastos list_unidades_activas select stamp_if cached_or uf_coef
        agrupar_conceptos distribuir replace_snapshot finish is_empty_list
    calcular consorcio_id liquidacion_id expected idem_key = do
      cid ← or_raise (env.scan_uuid consorcio_id) liquidacion_invalid
      lid ← or_raise (env.scan_uuid liquidacion_id) liquidacion_not_found
      liq ← Liquidacion.get env consorcio_id liquidacion_id
      raise_if (not (estado_eq liq.estado borrador) && not (estado_eq liq.estado calculada))
          liquidacion_transicion_invalida
      rows ← gets (list_gastos cid (take 4 liq.periodo ++ (codes "-" ++ drop 4 liq.periodo)) none)
      raise_if (is_empty_list (select is_registrado rows)) liquidacion_sin_gastos
      ufs ← gets (list_unidades_activas cid)
      raise_if (is_empty_list ufs) liquidacion_sin_ufs
      cached ← stamp_if env scope_calcular liquidacion_id idem_key
      cached_or cached do
        result ←
            lift
              (distribuir f (agrupar_conceptos env (select is_registrado rows)) (map uf_coef ufs))
        replace_snapshot lid (select is_registrado rows) result
        finish scope_calcular calculada consorcio_id liquidacion_id cid lid liq.estado expected
            idem_key

  unfoldable pub confirmar : Text → Text → ℕ → Text → Action Db LiquidacionDto
  unfolding Liquidacion.get stamp_if cached_or get_liquidacion_unidades to_unidad_cobro
      create_cargos finish
  confirmar consorcio_id liquidacion_id expected idem_key = do
    cid ← or_raise (env.scan_uuid consorcio_id) liquidacion_invalid
    lid ← or_raise (env.scan_uuid liquidacion_id) liquidacion_not_found
    liq ← Liquidacion.get env consorcio_id liquidacion_id
    raise_if (not (estado_eq liq.estado calculada)) liquidacion_transicion_invalida
    cached ← stamp_if env scope_confirmar liquidacion_id idem_key
    cached_or cached do
      preview ← gets (get_liquidacion_unidades lid)
      create_cargos env (to_unidad_cobro env preview liq.periodo liquidacion_id liq.vencimiento_1)
          (codes "ARS")
      finish scope_confirmar confirmada consorcio_id liquidacion_id cid lid liq.estado expected
          idem_key

  unfoldable pub publicar : Text → Text → ℕ → Text → Action Db LiquidacionDto
  unfolding Liquidacion.get stamp_if cached_or insert_outbox_event finish
  publicar consorcio_id liquidacion_id expected idem_key = do
    cid ← or_raise (env.scan_uuid consorcio_id) liquidacion_invalid
    lid ← or_raise (env.scan_uuid liquidacion_id) liquidacion_not_found
    liq ← Liquidacion.get env consorcio_id liquidacion_id
    raise_if (not (estado_eq liq.estado confirmada)) liquidacion_transicion_invalida
    cached ← stamp_if env scope_publicar liquidacion_id idem_key
    cached_or cached do
      insert_outbox_event env (env.uuid_string lid) (codes "liquidacion.publicada") (record {
        liquidacion_id = liquidacion_id;
        periodo = liq.periodo;
        consorcio_id = consorcio_id;
      })
      finish scope_publicar publicada consorcio_id liquidacion_id cid lid liq.estado expected
          idem_key

  -- The loop over the charges of the settlement.
  unfoldable pub revertir_cargos : List Charge → Action Db (Unit {0})
  unfolding revertir_cargo
  revertir_cargos [] = pure tt
  revertir_cargos (ch ∷ chs) =
      let rest = revertir_cargos chs in
      if ltb_ℤ (pos 0) ch.saldo_cents
      then revertir_cargo env (env.uuid_string ch.id) (env.uuid_string ch.unidad_id) (codes "ARS")
        >> rest
      else rest

  unfoldable pub revertir_pendientes : Estado → Uuid → Action Db (Unit {0})
  unfolding revertir_cargos get_charges_by_liquidacion
  revertir_pendientes estado lid =
      if estado_eq estado confirmada || estado_eq estado publicada
      then gets (get_charges_by_liquidacion lid) >>= revertir_cargos
      else pure tt

  unfoldable pub anular : Text → Text → ℕ → Action Db LiquidacionDto
  unfolding Liquidacion.get revertir_pendientes anular_liquidacion
  anular consorcio_id liquidacion_id expected = do
    or_raise (env.scan_uuid consorcio_id) liquidacion_invalid
    lid ← or_raise (env.scan_uuid liquidacion_id) liquidacion_not_found
    liq ← Liquidacion.get env consorcio_id liquidacion_id
    raise_if
        (estado_eq liq.estado publicada
          || estado_eq liq.estado anulada
          || estado_eq liq.estado cerrada)
        liquidacion_transicion_invalida
    revertir_pendientes liq.estado lid
    n ← anular_liquidacion lid liq.estado expected
    raise_if (n == 0) liquidacion_version_mismatch
    Liquidacion.get env consorcio_id liquidacion_id
