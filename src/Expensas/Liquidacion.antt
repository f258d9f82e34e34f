-- ===== src/Expensas/Liquidacion.antt =====
-- internal/expensas/liquidacion.go: settlements, their states and their due dates.
pub mod Estados
pub mod Versiones
pub mod Activas
use consorcioabierto.Prelude.{
  ℕ, Bool, true, false, Option, none, some, List, [], ◌∷◌, map, ◌&&◌, ◌||◌, not, ◌==◌, ltb, leb,
  if◌then◌else◌, length, any_row,
}
use consorcioabierto.Prelude.Int.{ℤ, pos}
use consorcioabierto.Prelude.Text.{Text}
use consorcioabierto.Prelude.Dates.{Date, format_date, parse_date, is_digit}
use consorcioabierto.Action.{
  Action, Result, ok, err, pure, gets, lift, or_raise, raise_if, ◌>>=◌, ◌>>◌, liquidacion_invalid,
  liquidacion_not_found, liquidacion_transicion_invalida, liquidacion_conflict,
  liquidacion_version_mismatch,
}
use consorcioabierto.Env.{Uuid, Env}
use consorcioabierto.Store.{
  Db, Liquidacion, LiquidacionDto, Estado, borrador, calculada, confirmada, publicada, cerrada,
  anulada, sin_estado,
}
use consorcioabierto.Queries.Liquidaciones.{
  get_liquidacion, create_liquidacion, list_liquidaciones, transition_liquidacion,
  update_liquidacion_vencimientos,
}

-- `validTransitions`
unfoldable pub can_transition : Estado → Estado → Bool
can_transition borrador calculada = true
can_transition borrador anulada = true
can_transition calculada borrador = true
can_transition calculada confirmada = true
can_transition calculada anulada = true
can_transition confirmada publicada = true
can_transition confirmada anulada = true
can_transition publicada cerrada = true
can_transition from to = false

-- `^[0-9]{6}$`
unfoldable pub periodo_matches : Text → Bool
unfolding any_row
periodo_matches p = length p == 6 && not (any_row (λ c. not (is_digit c)) p)

unfoldable pub validate_periodo : Text → Result (Unit {0})
unfolding periodo_matches
validate_periodo p = if periodo_matches p then ok tt else err liquidacion_invalid

unfoldable pub validate_vencimientos : Text → Option Text → Result (Unit {0})
unfolding parse_date
validate_vencimientos v1 none = elim (parse_date v1) [
  | none ↦ err liquidacion_invalid
  | some t1 ↦ ok tt
]
validate_vencimientos v1 (some v2) = elim (parse_date v1) [
  | none ↦ err liquidacion_invalid
  | some t1 ↦ elim (parse_date v2) [
    | none ↦ err liquidacion_invalid
    | some t2 ↦ if ltb t2 t1 then err liquidacion_invalid else ok tt
  ]
]

format_vencimiento : Option Date → Option Text
unfolding format_date
format_vencimiento none = none
format_vencimiento (some d) = some (format_date d)

module _ (env : Env) where
  unfoldable pub liquidacion_dto : Liquidacion → LiquidacionDto
  unfolding format_vencimiento format_date
  liquidacion_dto r = record {
    id = env.uuid_string r.id;
    consorcio_id = env.uuid_string r.consorcio_id;
    periodo = r.periodo;
    vencimiento_1 = format_date r.vencimiento_1;
    vencimiento_2 = format_vencimiento r.vencimiento_2;
    estado = r.estado;
    version = r.version;
    total_gastos_cents = r.total_gastos_cents;
    total_distribuido_cents = r.total_distribuido_cents;
    unidades_alcanzadas = r.unidades_alcanzadas;
    created_at = r.created_at;
    updated_at = r.updated_at;
  }

  -- An optional date: the outer `none` is an error of `Scan`.
  unfoldable pub scan_vencimiento : Option Text → Option (Option Date)
  scan_vencimiento none = some none
  scan_vencimiento (some v) = elim (env.scan_date v) [ none ↦ none | some d ↦ some (some d) ]

  unfoldable pub create : Text → Text → Text → Option Text → Action Db LiquidacionDto
  unfolding validate_periodo validate_vencimientos scan_vencimiento create_liquidacion
      liquidacion_dto
  create consorcio_id periodo v1 v2 = do
    lift (validate_periodo periodo)
    lift (validate_vencimientos v1 v2)
    cid ← or_raise (env.scan_uuid consorcio_id) liquidacion_invalid
    v1_date ← or_raise (env.scan_date v1) liquidacion_invalid
    v2_date ← or_raise (scan_vencimiento v2) liquidacion_invalid
    created ← create_liquidacion env cid periodo v1_date v2_date
    row ← or_raise created liquidacion_conflict
    pure (liquidacion_dto row)

  unfoldable pub get : Text → Text → Action Db LiquidacionDto
  unfolding get_liquidacion liquidacion_dto
  get consorcio_id id = do
    cid ← or_raise (env.scan_uuid consorcio_id) liquidacion_invalid
    lid ← or_raise (env.scan_uuid id) liquidacion_not_found
    found ← gets (get_liquidacion cid lid)
    row ← or_raise found liquidacion_not_found
    pure (liquidacion_dto row)

  unfoldable pub list : Text → Text → Option Estado → Action Db (List LiquidacionDto)
  unfolding list_liquidaciones liquidacion_dto
  list consorcio_id periodo estado = do
    cid ← or_raise (env.scan_uuid consorcio_id) liquidacion_invalid
    rows ← gets (list_liquidaciones cid periodo estado)
    pure (map liquidacion_dto rows)

  unfoldable pub update_vencimientos : Text → Text → Text → Option Text → ℕ → Action Db (Unit {0})
  unfolding validate_vencimientos scan_vencimiento update_liquidacion_vencimientos
  update_vencimientos consorcio_id id v1 v2 expected = do
    lift (validate_vencimientos v1 v2)
    cid ← or_raise (env.scan_uuid consorcio_id) liquidacion_invalid
    lid ← or_raise (env.scan_uuid id) liquidacion_not_found
    v1_date ← or_raise (env.scan_date v1) liquidacion_invalid
    v2_date ← or_raise (scan_vencimiento v2) liquidacion_invalid
    update_liquidacion_vencimientos v1_date v2_date cid lid expected

  unfoldable pub transition_estado : Text → Text → Estado → Estado → ℕ → Action Db (Unit {0})
  unfolding can_transition transition_liquidacion
  transition_estado consorcio_id id current next expected = do
    raise_if (not (can_transition current next)) liquidacion_transicion_invalida
    cid ← or_raise (env.scan_uuid consorcio_id) liquidacion_invalid
    lid ← or_raise (env.scan_uuid id) liquidacion_not_found
    n ← transition_liquidacion next cid lid current expected
    raise_if (n == 0) liquidacion_version_mismatch
