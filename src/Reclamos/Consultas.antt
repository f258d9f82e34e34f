-- ===== src/Reclamos/Consultas.antt =====
-- internal/database/gen/reclamos.sql.go: the statements on claims, with the foreign keys and checks
-- of db/migrations/00025_reclamos.sql.
use consorcioabierto.Prelude.{
  false, ℕ, ◌+◌, Bool, true, Option, none, some, List, [], ◌∷◌, ◌++◌, ◌&&◌, ◌||◌, not, ◌==◌, ltb,
  if◌then◌else◌, select, any_row, find_row, update_rows,
}
use consorcioabierto.Prelude.Text.{Text, text_eq, is_empty}
use consorcioabierto.Prelude.Sort.{sort_by}
use consorcioabierto.Action.{Action, ok, err, check_violation, foreign_key_violation, no_rows}
use consorcioabierto.Env.{Uuid, Env}
use consorcioabierto.Reclamos.Maquina.{EstadoReclamo, abierto, estado_text, accion_of}
use consorcioabierto.Reclamos.Tablas.{Reclamo, ReclamoMensaje, ReclamoTransicion, Clave, Tablas}

-- A foreign key to a table of the tenant, and one to the users; NULL refers to nothing.
abbrev pub existe : Uuid → Tablas → List Clave → Bool
existe id t claves = any_row (λ c. c.tenant_id == t.current_tenant && c.id == id) claves

unfoldable pub user_existe : Option Uuid → Tablas → Bool
unfolding any_row
user_existe none t = true
user_existe (some u) t = any_row (λ v. v == u) t.users

abbrev pub same_reclamo : Uuid → Tablas → Reclamo → Bool
same_reclamo id t r = r.tenant_id == t.current_tenant && r.id == id

unfoldable pub get_reclamo : Uuid → Tablas → Option Reclamo
unfolding find_row
get_reclamo id t = find_row (same_reclamo id t) t.reclamos

-- (estado = $2 OR $2 = '')
abbrev pub reclamo_fits : Uuid → Text → Tablas → Reclamo → Bool
reclamo_fits consorcio estado t r =
    r.tenant_id == t.current_tenant
    && r.consorcio_id == consorcio
    && (text_eq (estado_text r.estado) estado || is_empty estado)

-- ORDER BY created_at DESC, id DESC
abbrev pub newer_reclamo : Reclamo → Reclamo → Bool
newer_reclamo a b = ltb b.created_at a.created_at || (a.created_at == b.created_at && ltb b.id a.id)

unfoldable pub list_reclamos : Uuid → Text → Tablas → List Reclamo
unfolding select sort_by text_eq is_empty
list_reclamos consorcio estado t =
    sort_by newer_reclamo (select (reclamo_fits consorcio estado t) t.reclamos)

abbrev pub mensaje_of : Uuid → Tablas → ReclamoMensaje → Bool
mensaje_of id t m = m.tenant_id == t.current_tenant && m.reclamo_id == id

-- ORDER BY created_at ASC, id ASC
unfoldable pub list_reclamo_mensajes : Uuid → Tablas → List ReclamoMensaje
unfolding select sort_by
list_reclamo_mensajes id t =
    sort_by
      (λ a b. ltb a.created_at b.created_at || (a.created_at == b.created_at && ltb a.id b.id))
      (select (mensaje_of id t) t.reclamo_mensajes)

abbrev pub transicion_of : Uuid → Tablas → ReclamoTransicion → Bool
transicion_of id t h = h.tenant_id == t.current_tenant && h.reclamo_id == id

-- ORDER BY created_at ASC, id ASC
unfoldable pub list_reclamo_transiciones : Uuid → Tablas → List ReclamoTransicion
unfolding select sort_by
list_reclamo_transiciones id t =
    sort_by
      (λ a b. ltb a.created_at b.created_at || (a.created_at == b.created_at && ltb a.id b.id))
      (select (transicion_of id t) t.reclamo_transiciones)

-- `GetDocumento` of documentos.sql.go, by its key
unfoldable pub documento_existe : Uuid → Tablas → Bool
unfolding any_row
documento_existe id t = existe id t t.documentos

unfoldable pub con_responsable : EstadoReclamo → Option Uuid → Tablas → Reclamo → Reclamo
con_responsable estado responsable t r = record r {
  estado = estado;
  responsable_id = responsable;
  updated_at = t.now;
}

unfoldable pub update_reclamo_estado : Uuid → EstadoReclamo → Option Uuid → Action Tablas Reclamo
unfolding user_existe get_reclamo update_rows con_responsable
update_reclamo_estado id estado responsable t =
    if not (user_existe responsable t) then err foreign_key_violation else elim (get_reclamo id t) [
      | none ↦ err no_rows
      | some r ↦ ok (
        con_responsable estado responsable t r,
        record t {
          reclamos =
              update_rows (same_reclamo id t) (con_responsable estado responsable t) t.reclamos;
        },
      )
    ]

abbrev pub accion_valida : Text → Bool
accion_valida a = elim (accion_of a) [ none ↦ false | some x ↦ true ]

module _ (env : Env) where
  unfoldable pub create_reclamo : Uuid → Uuid → Text → Text → Option ℕ → Action Tablas Reclamo
  unfolding any_row is_empty
  create_reclamo consorcio unidad categoria texto sla t =
      if is_empty texto
      then err check_violation
      else if not (existe consorcio t t.consorcios && existe unidad t t.unidades)
      then err foreign_key_violation
      else (let row : Reclamo = record {
        tenant_id = t.current_tenant;
        consorcio_id = consorcio;
        unidad_id = unidad;
        id = env.gen_random_uuid t.generated;
        categoria = categoria;
        texto = texto;
        estado = abierto;
        responsable_id = none;
        sla_due_at = sla;
        created_by = t.current_user;
        created_at = t.now;
        updated_at = t.now;
      } in
          ok (row, record t { reclamos = t.reclamos ++ row ∷ []; generated = t.generated + 1 }))

  unfoldable pub insert_reclamo_mensaje : Uuid → Text → Option Uuid → Action Tablas ReclamoMensaje
  unfolding any_row is_empty
  insert_reclamo_mensaje reclamo texto adjunto t =
      if is_empty texto
      then err check_violation
      else if not (
          any_row (same_reclamo reclamo t) t.reclamos
          && elim adjunto [ none ↦ true | some d ↦ existe d t t.documentos ])
      then err foreign_key_violation
      else (let row : ReclamoMensaje = record {
        tenant_id = t.current_tenant;
        id = env.gen_random_uuid t.generated;
        reclamo_id = reclamo;
        texto = texto;
        adjunto_id = adjunto;
        created_by = t.current_user;
        created_at = t.now;
      } in
          ok (
            row,
            record t {
              reclamo_mensajes = t.reclamo_mensajes ++ row ∷ [];
              generated = t.generated + 1;
            },
          ))

  unfoldable pub nueva_transicion :
      Uuid
      → Text
      → Option Text
      → EstadoReclamo
      → EstadoReclamo
      → Option Uuid
      → Tablas
      → ReclamoTransicion
  nueva_transicion reclamo accion motivo desde hasta responsable t = record {
    tenant_id = t.current_tenant;
    id = env.gen_random_uuid t.generated;
    reclamo_id = reclamo;
    accion = accion;
    motivo = motivo;
    from_estado = desde;
    to_estado = hasta;
    responsable_id = responsable;
    created_by = t.current_user;
    created_at = t.now;
  }

  -- `reclamo_transiciones_accion_check`, and the keys of the claim and of the user in charge.
  unfoldable pub insert_reclamo_transicion :
      Uuid
      → Text
      → Option Text
      → EstadoReclamo
      → EstadoReclamo
      → Option Uuid
      → Action Tablas ReclamoTransicion
  unfolding any_row accion_of user_existe nueva_transicion
  insert_reclamo_transicion reclamo accion motivo desde hasta responsable t =
      if not (accion_valida accion)
      then err check_violation
      else if not (any_row (same_reclamo reclamo t) t.reclamos && user_existe responsable t)
      then err foreign_key_violation
      else (let row = nueva_transicion reclamo accion motivo desde hasta responsable t in
          ok (
            row,
            record t {
              reclamo_transiciones = t.reclamo_transiciones ++ row ∷ [];
              generated = t.generated + 1;
            },
          ))
