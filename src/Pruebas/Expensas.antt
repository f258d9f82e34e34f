-- ===== src/Pruebas/Expensas.antt =====
-- The settlement of a building run on concrete data.
use consorcioabierto.Prelude.{ℕ, ◌≡◌, refl, true, false, some, List, [], ◌∷◌, inl, arith, map}
use consorcioabierto.Prelude.Int.{pos, ◌≤ℤ◌}
use consorcioabierto.Prelude.Int64.{add64, sub64, wrap64, bits}
use consorcioabierto.Prelude.Text.{Text, codes}
use consorcioabierto.Action.{ok, err, liquidacion_version_mismatch, liquidacion_transicion_invalida}
use consorcioabierto.Store.{Liquidacion, Db, LiquidacionDto, borrador, calculada, anulada}
use consorcioabierto.Queries.Liquidaciones.{get_liquidacion}
use consorcioabierto.CuentaCorriente.{
  UnidadCobro, ChargeDto, AccountEntryDto, create_cargos, charge_dto, account_entry_dto,
}
use consorcioabierto.CuentaCorriente.Cargos.{Cargados, create_cargos_carga_cada_unidad}
use consorcioabierto.Expensas.Calculo.{
  ConceptoCalculo, UfCoef, DistribucionResult, distribuir, result_of,
}
use consorcioabierto.Expensas.Calculo.Sum.{total_of}
use consorcioabierto.Expensas.Calculo.Total.{sum_importes, distribuir_conserva}
use consorcioabierto.Expensas.Calculo.Shares.{NonNeg, distribuir_exacta}
use consorcioabierto.Expensas.Agrupar.{agrupar_conceptos}
use consorcioabierto.Expensas.Agrupar.Suma.{sum_gastos, NoRepeats, agrupar_conserva}
use consorcioabierto.Expensas.Liquidacion.{can_transition, transition_estado}
use consorcioabierto.Expensas.Liquidacion.Estados.{bumped, transitioned, transition_estado_exacta}
use consorcioabierto.Expensas.Liquidacion.Versiones.{version_usada_una_vez}
use consorcioabierto.Pruebas.Fracciones.{fracciones, fracciones_laws}
use consorcioabierto.Prelude.Rows.{IsKey}
use consorcioabierto.Expensas.Calculo.Shares.{max_int64}
use consorcioabierto.Prelude.Int.{int_laws}
use consorcioabierto.Queries.Liquidaciones.{same_liquidacion}
use consorcioabierto.Prelude.{count_rows}
use consorcioabierto.Prelude.Dates.{parse_date}
use consorcioabierto.Store.{Charge, AccountEntry}
use consorcioabierto.CuentaCorriente.Cargos.{with_cargos}
use consorcioabierto.CuentaCorriente.{
  UnidadCobro, ChargeDto, AccountEntryDto, create_cargos, charge_dto, account_entry_dto,
}
use consorcioabierto.Prelude.{Bool-cases, inr}
use consorcioabierto.Queries.Liquidaciones.{blocks_periodo}
use consorcioabierto.Expensas.Liquidacion.Activas.{UnaActiva}
use consorcioabierto.Expensas.Liquidacion.Activas.{transition_estado-UnaActiva}
use consorcioabierto.Pruebas.Datos.{
  env_de_prueba, db_de_prueba, gasto_luz, gasto_agua, liquidacion_mayo,
}
use consorcioabierto.Store.{confirmada}
use consorcioabierto.Expensas.Idempotencia.{zero_dto}
use consorcioabierto.Expensas.Transiciones.{publicar, confirmar}

abbrev conceptos : List ConceptoCalculo
conceptos =
    record { concepto_id = codes "luz"; regla = codes "coeficiente"; importe_cents = pos 1000 }
    ∷ record { concepto_id = codes "agua"; regla = codes "coeficiente"; importe_cents = pos 500 }
    ∷ []

abbrev uf : Text → ℕ → UfCoef (ℕ × ℕ)
uf codigo coeficiente = record {
  unidad_id = codigo;
  codigo = codigo;
  coeficiente = (coeficiente, 1);
}

-- Three equal units, in the order of their codes, as the sort leaves them.
abbrev unidades : List (UfCoef (ℕ × ℕ))
unidades = uf (codes "A") 1 ∷ uf (codes "B") 1 ∷ uf (codes "C") 1 ∷ []

abbrev resultado : DistribucionResult (ℕ × ℕ)
unfolding result_of
resultado = result_of fracciones conceptos unidades (3, 1)

totales : map (λ u. u.total_cents) resultado.unidades ≡ pos 501 ∷ pos 500 ∷ pos 499 ∷ []
unfolding resultado add64 sub64
totales = refl

distribuido : distribuir fracciones conceptos unidades ≡ ok resultado
unfolding distribuir resultado
distribuido = refl

distribuir_conserva_example :
    (resultado.total_gastos_cents ≡ wrap64 (sum_importes conceptos))
    × (resultado.total_distribuido_cents ≡ resultado.total_gastos_cents)
    × (resultado.diferencia_cents ≡ pos 0)
    × (bits (total_of fracciones resultado.unidades) ≡ bits (sum_importes conceptos))
distribuir_conserva_example =
    distribuir_conserva fracciones conceptos unidades resultado fracciones_laws
      (omega arith, (omega arith, tt)) (inl refl, (inl refl, (inl refl, tt))) distribuido

distribuir_exacta_example :
    NonNeg fracciones resultado.unidades
    × (total_of fracciones resultado.unidades ≡ sum_importes conceptos)
distribuir_exacta_example =
    distribuir_exacta fracciones conceptos unidades resultado fracciones_laws
      (inl refl, (inl refl, (inl refl, tt))) (omega arith, (omega arith, tt)) suma_en_rango
      distribuido
  where
    suma_en_rango : sum_importes conceptos ≤ℤ max_int64
    suma_en_rango = omega int_laws

agrupar_conserva_example :
    (bits (sum_importes (agrupar_conceptos env_de_prueba (gasto_luz ∷ gasto_agua ∷ [])))
      ≡ bits (sum_gastos (gasto_luz ∷ gasto_agua ∷ [])))
    × NoRepeats (agrupar_conceptos env_de_prueba (gasto_luz ∷ gasto_agua ∷ []))
agrupar_conserva_example = agrupar_conserva env_de_prueba (gasto_luz ∷ gasto_agua ∷ [])

abbrev id_consorcio : Text
id_consorcio = 2 ∷ []

abbrev id_mayo : Text
id_mayo = 3 ∷ []

mayo_unica : IsKey (same_liquidacion 2 3 db_de_prueba) db_de_prueba.liquidaciones
unfolding count_rows same_liquidacion
mayo_unica = omega arith

mayo_esta : get_liquidacion 2 3 db_de_prueba ≡ some liquidacion_mayo
unfolding get_liquidacion
mayo_esta = refl

transition_estado_exacta_example :
    let run =
      transition_estado env_de_prueba id_consorcio id_mayo borrador calculada 7 db_de_prueba in
    let db' = transitioned calculada 2 3 borrador 7 db_de_prueba in
    (can_transition borrador calculada ≡ false → run ≡ err liquidacion_transicion_invalida)
    × (can_transition borrador calculada ≡ true
        → true ≡ false
        → run ≡ err liquidacion_version_mismatch)
    × (can_transition borrador calculada ≡ true
        → true ≡ true
        → (run ≡ ok (tt, db'))
          × (get_liquidacion 2 3 db' ≡ some (bumped calculada db_de_prueba liquidacion_mayo)))
transition_estado_exacta_example =
    transition_estado_exacta env_de_prueba id_consorcio id_mayo borrador calculada 7 db_de_prueba 2
      3 liquidacion_mayo refl refl mayo_unica mayo_esta refl

version_usada_una_vez_example :
    let db' = transitioned calculada 2 3 borrador 7 db_de_prueba in
    (transition_estado env_de_prueba id_consorcio id_mayo borrador calculada 7 db_de_prueba
      ≡ ok (tt, db'))
    × (transition_estado env_de_prueba id_consorcio id_mayo borrador anulada 7 db'
        ≡ err liquidacion_version_mismatch)
unfolding can_transition
version_usada_una_vez_example =
    version_usada_una_vez env_de_prueba id_consorcio id_mayo borrador calculada borrador anulada 7
      db_de_prueba 2 3 liquidacion_mayo refl refl mayo_unica mayo_esta refl refl refl refl

abbrev lote : List UnidadCobro
lote =
    record {
      unidad_id = 10 ∷ [];
      concepto = codes "Expensa 202405";
      due_date = codes "2024-06-10";
      total_cents = pos 501;
      liquidacion_id = some id_mayo;
    }
    ∷ []

abbrev cargado : (List ChargeDto × List AccountEntryDto) × Db
unfolding create_cargos
cargado = elim (create_cargos env_de_prueba lote (codes "ARS") db_de_prueba) [
  | ok r ↦ r
  | err e ↦ (([], []), db_de_prueba)
]

lote-ok : create_cargos env_de_prueba lote (codes "ARS") db_de_prueba ≡ ok (cargado.0, cargado.1)
unfolding create_cargos cargado parse_date
lote-ok = refl

create_cargos_carga_cada_unidad_example :
    (cs : List Charge) × (es : List AccountEntry) × (n : ℕ) × Cargados env_de_prueba 1 lote cs es
    × (cargado.1 ≡ with_cargos env_de_prueba cs es n db_de_prueba)
    × (cargado.0 ≡ (map (charge_dto env_de_prueba) cs, map (account_entry_dto env_de_prueba) es))
create_cargos_carga_cada_unidad_example =
    create_cargos_carga_cada_unidad env_de_prueba lote (codes "ARS") db_de_prueba cargado.0
      cargado.1 lote-ok

una_sola : UnaActiva db_de_prueba
unfolding count_rows
una_sola cid periodo =
    elim (Bool-cases (blocks_periodo cid periodo db_de_prueba liquidacion_mayo)) [
      | inl fits ↦ rw fits (omega arith)
      | inr other ↦ rw other (omega arith)
    ]

mayo_calculada :
    transition_estado env_de_prueba id_consorcio id_mayo borrador calculada 7 db_de_prueba
    ≡ ok (tt, transitioned calculada 2 3 borrador 7 db_de_prueba)
unfolding transition_estado
mayo_calculada = refl

transition_estado-UnaActiva_example : UnaActiva (transitioned calculada 2 3 borrador 7 db_de_prueba)
transition_estado-UnaActiva_example =
    transition_estado-UnaActiva env_de_prueba id_consorcio id_mayo borrador calculada 7 db_de_prueba
      (transitioned calculada 2 3 borrador 7 db_de_prueba) una_sola mayo_calculada

abbrev mayo_confirmada : Liquidacion
mayo_confirmada = record liquidacion_mayo { estado = confirmada }

abbrev db_confirmado : Db
db_confirmado = record db_de_prueba { liquidaciones = mayo_confirmada ∷ [] }

abbrev publicado : LiquidacionDto × Db
unfolding publicar
publicado = elim (publicar env_de_prueba id_consorcio id_mayo 7 [] db_confirmado) [
  | ok r ↦ r
  | err e ↦ (zero_dto, db_confirmado)
]

abbrev mayo_calculado : Liquidacion
mayo_calculado = record liquidacion_mayo { estado = calculada }

abbrev db_calculado : Db
db_calculado = record db_de_prueba {
  liquidaciones = mayo_calculado ∷ [];
  liquidacion_unidades =
      record {
        tenant_id = 1;
        liquidacion_id = 3;
        unidad_id = 10;
        codigo = codes "A";
        coeficiente = 50000000;
        total_cents = pos 1500;
      }
      ∷ [];
}

abbrev confirmado : LiquidacionDto × Db
unfolding confirmar
confirmado = elim (confirmar env_de_prueba id_consorcio id_mayo 7 [] db_calculado) [
  | ok r ↦ r
  | err e ↦ (zero_dto, db_calculado)
]
