-- ===== src/Notificaciones/Consultas.antt =====
-- internal/database/gen/notificaciones.sql.go, with the unique index of
-- db/migrations/00029_notificaciones.sql.
use consorcioabierto.Prelude.{
  ℕ, ◌+◌, Bool, true, false, none, some, List, [], ◌∷◌, ◌++◌, ◌&&◌, ◌||◌, not, ◌==◌, ltb, leb,
  if◌then◌else◌, take, select, any_row, find_row, update_rows, count_rows,
}
use consorcioabierto.Prelude.Text.{Text, codes, text_eq}
use consorcioabierto.Prelude.Dates.{Date}
use consorcioabierto.Prelude.Sort.{sort_by}
use consorcioabierto.Action.{
  Action, ok, err, no_rows, rls_violation, check_violation, foreign_key_violation,
}
use consorcioabierto.Env.{Uuid, Env}
use consorcioabierto.Notificaciones.Tablas.{Notificacion, UnidadPersona, PersonaUsuario, Avisos}

-- A link of a person to a unit, on a day.
abbrev vigente : Date → UnidadPersona → Bool
vigente hoy up =
    leb up.valid_from hoy && elim up.valid_to [ none ↦ true | some hasta ↦ leb hoy hasta ]

users_de : UnidadPersona → List PersonaUsuario → List Uuid
users_de up [] = []
users_de up (p ∷ ps) =
    let rest = users_de up ps in
    if p.tenant_id == up.tenant_id && p.id == up.persona_id
    then elim p.user_id [ none ↦ rest | some u ↦ u ∷ rest ]
    else rest

-- The users of the links in force to some unit of the building.
unfoldable pub join_users : Uuid → Avisos → List UnidadPersona → List Uuid
unfolding users_de any_row
join_users consorcio db [] = []
join_users consorcio db (up ∷ ups) =
    let rest = join_users consorcio db ups in
    if any_row
        (λ u.
          u.tenant_id == db.current_tenant
          && u.consorcio_id == consorcio
          && u.tenant_id == up.tenant_id
          && u.id == up.unidad_id)
        db.unidades
      && vigente db.current_date up
    then users_de up db.personas ++ rest
    else rest

-- SELECT DISTINCT
unfoldable pub distinct : List Uuid → List Uuid
unfolding any_row
distinct [] = []
distinct (u ∷ us) = let rest = distinct us in if any_row (λ v. v == u) rest then rest else u ∷ rest

-- ORDER BY p.user_id
unfoldable pub list_destinatarios : Uuid → Avisos → List Uuid
unfolding distinct join_users sort_by
list_destinatarios consorcio db =
    sort_by (λ a b. ltb a b) (distinct (join_users consorcio db db.unidad_personas))

-- `notificaciones_destinatario_recurso_unique`
abbrev pub mismo_aviso : Uuid → Text → Uuid → Avisos → Notificacion → Bool
mismo_aviso user tipo recurso db n =
    n.tenant_id == db.current_tenant
    && n.user_id == user
    && text_eq n.tipo tipo
    && elim n.recurso_id [ none ↦ false | some r ↦ r == recurso ]

-- `notificaciones_visible`, of a user's notices.
unfoldable pub visible_para : Uuid → Avisos → Bool
visible_para user db =
    db.sin_politicas || elim db.current_user [ none ↦ false | some u ↦ user == u ]

abbrev pub propia : Avisos → Notificacion → Bool
propia db n =
    n.tenant_id == db.current_tenant
    && elim db.current_user [ none ↦ false | some u ↦ n.user_id == u ]

unfoldable pub sin_leer : Notificacion → Bool
sin_leer n = elim n.leida_at [ none ↦ true | some t ↦ false ]

unfoldable pub list_notificaciones_for_current_user : Bool → ℕ → Avisos → List Notificacion
unfolding select sort_by sin_leer
list_notificaciones_for_current_user solo_no_leidas limite db = take limite (
    sort_by (λ a b. ltb b.created_at a.created_at)
      (select (λ n. propia db n && (not solo_no_leidas || sin_leer n)) db.notificaciones))

unfoldable pub count_notificaciones_no_leidas : Avisos → ℕ
unfolding count_rows sin_leer
count_notificaciones_no_leidas db = count_rows (λ n. propia db n && sin_leer n) db.notificaciones

abbrev pub por_leer : Uuid → Avisos → Notificacion → Bool
por_leer id db n = propia db n && n.id == id && sin_leer n

unfoldable pub leida : ℕ → Notificacion → Notificacion
leida t n = record n { leida_at = some t }

unfoldable pub marcar_notificacion_leida : Uuid → Action Avisos Notificacion
unfolding find_row update_rows sin_leer leida
marcar_notificacion_leida id db = elim (find_row (por_leer id db) db.notificaciones) [
  | none ↦ err no_rows
  | some n ↦ ok (
    leida db.now n,
    record db { notificaciones = update_rows (por_leer id db) (leida db.now) db.notificaciones },
  )
]

-- `notificaciones_tipo_check`
unfoldable pub tipo_fits : Text → Bool
unfolding text_eq
tipo_fits tipo = text_eq tipo (codes "comunicado") || text_eq tipo (codes "liquidacion")

-- The foreign key to the users.
unfoldable pub user_hay : Uuid → Avisos → Bool
unfolding any_row
user_hay user db = any_row (λ u. u == user) db.users

module _ (env : Env) where
  unfoldable pub nuevo_aviso : Uuid → Text → Text → Text → Text → Uuid → Avisos → Notificacion
  nuevo_aviso user tipo titulo cuerpo recurso_type recurso db = record {
    tenant_id = db.current_tenant;
    id = env.gen_random_uuid db.generated;
    user_id = user;
    tipo = tipo;
    titulo = titulo;
    cuerpo = cuerpo;
    recurso_type = recurso_type;
    recurso_id = some recurso;
    leida_at = none;
    created_at = db.now;
  }

  -- ON CONFLICT DO NOTHING returns no row. RETURNING reads the new row, so that `notificaciones_visible`
  -- is checked for it first, then `notificaciones_tipo_check`; the key of the user comes last.
  unfoldable pub insert_notificacion :
      Uuid → Text → Text → Text → Text → Uuid → Action Avisos Notificacion
  unfolding any_row text_eq nuevo_aviso visible_para tipo_fits user_hay
  insert_notificacion user tipo titulo cuerpo recurso_type recurso db =
      if not (visible_para user db)
      then err rls_violation
      else if not (tipo_fits tipo)
      then err check_violation
      else if any_row (mismo_aviso user tipo recurso db) db.notificaciones
      then err no_rows
      else if not (user_hay user db)
      then err foreign_key_violation
      else (let row = nuevo_aviso user tipo titulo cuerpo recurso_type recurso db in
          ok (
            row,
            record db {
              notificaciones = db.notificaciones ++ row ∷ [];
              generated = db.generated + 1;
            },
          ))
