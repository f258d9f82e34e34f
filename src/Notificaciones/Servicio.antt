-- ===== src/Notificaciones/Servicio.antt =====
-- internal/notificaciones/notificaciones.go: the fan-out of a publication, and what its recipient
-- reads.
use consorcioabierto.Prelude.{
  false, true, ℕ, ◌+◌, Bool, Option, none, some, List, [], ◌∷◌, map, length, if◌then◌else◌,
}
use consorcioabierto.Prelude.Int.{ℤ, pos, leb_ℤ, ltb_ℤ, pos_part}
use consorcioabierto.Prelude.Text.{Text, codes, trim_space, is_empty}
use consorcioabierto.Action.{
  Action, Result, Error, ok, err, pure, gets, lift, raise_if, ◌>>=◌, ◌>>◌, no_rows, limite_invalido,
  notificacion_not_found,
}
use consorcioabierto.Env.{Uuid, Env}
use consorcioabierto.Notificaciones.Tablas.{Notificacion, Avisos}
use consorcioabierto.Notificaciones.Consultas.{
  list_destinatarios, insert_notificacion, list_notificaciones_for_current_user,
  count_notificaciones_no_leidas, marcar_notificacion_leida,
}

-- `DTO`, with the times as they are stored.
pub record NotificacionDto : Type 0 where
  pub id : Text
  pub tipo : Text
  pub titulo : Text
  pub cuerpo : Text
  pub recurso_type : Text
  pub recurso_id : Option Text
  pub leida_at : Option ℕ
  pub created_at : ℕ

-- `Listado`, whose field `data` is `avisos` here.
pub record Listado : Type 0 where
  pub avisos : List NotificacionDto
  pub no_leidas : ℕ

-- `Resultado`
pub record Resultado : Type 0 where
  pub destinatarios : ℕ
  pub creadas : ℕ
  pub omitidas : ℕ

abbrev pub limite_por_defecto : ℤ
limite_por_defecto = pos 50

abbrev pub limite_maximo : ℤ
limite_maximo = pos 200

-- The limit asked for, within bounds.
unfoldable pub acotar : ℤ → ℤ
acotar limite =
    let pedido = if leb_ℤ limite (pos 0) then limite_por_defecto else limite in
    if ltb_ℤ limite_maximo pedido then limite_maximo else pedido

-- One more notice made, or one that was there.
unfoldable pub sumar_creada : Resultado → Resultado
sumar_creada res = record res { creadas = res.creadas + 1 }

unfoldable pub sumar_omitida : Resultado → Resultado
sumar_omitida res = record res { omitidas = res.omitidas + 1 }

-- `errors.Is(err, pgx.ErrNoRows)`
abbrev pub sin_filas : Error → Bool
sin_filas no_rows = true
sin_filas _ = false

module _ (env : Env) where
  unfoldable pub to_dto : Notificacion → NotificacionDto
  to_dto n = record {
    id = env.uuid_string n.id;
    tipo = n.tipo;
    titulo = n.titulo;
    cuerpo = n.cuerpo;
    recurso_type = n.recurso_type;
    recurso_id = elim n.recurso_id [ none ↦ none | some r ↦ some (env.uuid_string r) ];
    leida_at = n.leida_at;
    created_at = n.created_at;
  }

  unfoldable pub uuid_to_pg : Text → Result Uuid
  unfolding trim_space
  uuid_to_pg s = elim (env.parse_uuid (trim_space s)) [ none ↦ err limite_invalido | some u ↦ ok u ]

  -- The notices of the recipients that are left. A conflict is counted and leaves the tables alone;
  -- another error ends the call.
  unfoldable pub avisar :
      Text → Text → Text → Text → Uuid → List Uuid → Resultado → Action Avisos Resultado
  unfolding insert_notificacion sumar_creada sumar_omitida
  avisar tipo titulo cuerpo recurso_type recurso [] res db = ok (res, db)
  avisar tipo titulo cuerpo recurso_type recurso (u ∷ us) res db =
      elim (insert_notificacion env u tipo titulo cuerpo recurso_type recurso db) [
        | ok (row, db') ↦ avisar tipo titulo cuerpo recurso_type recurso us (sumar_creada res) db'
        | err e ↦
            let siguen = avisar tipo titulo cuerpo recurso_type recurso us (sumar_omitida res) db in
            if sin_filas e then siguen else err e
      ]

  unfoldable pub notificar : Text → Text → Text → Text → Text → Text → Action Avisos Resultado
  unfolding uuid_to_pg trim_space is_empty list_destinatarios avisar
  notificar consorcio_id recurso_id tipo recurso_type titulo cuerpo = do
    consorcio ← lift (uuid_to_pg consorcio_id)
    recurso ← lift (uuid_to_pg recurso_id)
    raise_if (is_empty (trim_space titulo)) limite_invalido
    destinatarios ← gets (list_destinatarios consorcio)
    avisar tipo (trim_space titulo) cuerpo recurso_type recurso destinatarios
        (record { destinatarios = length destinatarios; creadas = 0; omitidas = 0 })

  unfoldable pub notificar_comunicado : Text → Text → Text → Text → Action Avisos Resultado
  unfolding notificar
  notificar_comunicado consorcio_id comunicado_id titulo cuerpo =
      notificar consorcio_id comunicado_id (codes "comunicado") (codes "comunicado") titulo cuerpo

  unfoldable pub notificar_liquidacion : Text → Text → Text → Text → Action Avisos Resultado
  unfolding notificar
  notificar_liquidacion consorcio_id liquidacion_id titulo cuerpo =
      notificar consorcio_id liquidacion_id (codes "liquidacion") (codes "liquidacion") titulo
        cuerpo

  unfoldable pub listar : Bool → ℤ → Action Avisos Listado
  unfolding acotar list_notificaciones_for_current_user count_notificaciones_no_leidas to_dto
  listar solo_no_leidas limite = do
    rows ← gets (list_notificaciones_for_current_user solo_no_leidas (pos_part (acotar limite)))
    no_leidas ← gets count_notificaciones_no_leidas
    pure (record { avisos = map (to_dto) rows; no_leidas = no_leidas })

  -- No row is a notice that is not found.
  unfoldable pub no_encontrada : Result (Notificacion × Avisos) → Result (Notificacion × Avisos)
  no_encontrada (ok r) = ok r
  no_encontrada (err e) = if sin_filas e then err notificacion_not_found else err e

  unfoldable pub marcar : Uuid → Action Avisos Notificacion
  unfolding marcar_notificacion_leida no_encontrada
  marcar target db = no_encontrada (marcar_notificacion_leida target db)

  unfoldable pub marcar_leida : Text → Action Avisos NotificacionDto
  unfolding uuid_to_pg marcar to_dto
  marcar_leida id = do target ← lift (uuid_to_pg id); row ← marcar target; pure (to_dto row)
