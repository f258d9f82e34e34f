-- ===== src/Portal.antt =====
-- internal/portal/reclamos.go: an owner opens a claim on a unit of theirs.
pub mod Alcance
use consorcioabierto.Prelude.{
  ℕ, Bool, true, false, Option, none, some, List, ◌&&◌, ◌||◌, ◌==◌, ltb, leb, select, any_row,
  find_row,
}
use consorcioabierto.Prelude.Text.{Text, text_eq, text_ltb, trim_space, is_empty}
use consorcioabierto.Prelude.Dates.{Date}
use consorcioabierto.Prelude.Sort.{sort_by}
use consorcioabierto.Action.{
  Action, Result, ok, err, sin_vinculo, lift, gets, raise_if, or_raise, ◌>>=◌, ◌>>◌,
}
use consorcioabierto.Env.{Uuid, Env}
use consorcioabierto.Notificaciones.Tablas.{UnidadPersona, PersonaUsuario}
use consorcioabierto.Reclamos.Tablas.{Tablas}
use consorcioabierto.Reclamos.Servicio.{ReclamoDto, CreateInput, create}

-- The columns of `unidades` that are used.
pub record UnidadMia : Type 0 where
  pub tenant_id : Uuid
  pub consorcio_id : Uuid
  pub id : Uuid
  pub codigo : Text

-- The tables of claims, with those that tie a user to a unit. The columns of
-- `reclamos.unidades` are its keys.
pub record Vinculos : Type 0 where
  pub current_date : Date
  pub mis_unidades : List UnidadMia
  pub unidad_personas : List UnidadPersona
  pub personas : List PersonaUsuario
  pub tablas : Tablas

-- p.user_id = app.current_user_id()
abbrev pub es_persona_del_usuario : Tablas → PersonaUsuario → Bool
es_persona_del_usuario t p = elim p.user_id [
  | none ↦ false
  | some u ↦ elim t.current_user [ none ↦ false | some v ↦ u == v ]
]

-- A tie of the unit to a person of the user, in force today.
abbrev pub vinculo_vigente : UnidadMia → Vinculos → UnidadPersona → Bool
vinculo_vigente u s up =
    up.tenant_id == u.tenant_id
    && up.unidad_id == u.id
    && leb up.valid_from s.current_date
    && elim up.valid_to [ none ↦ true | some hasta ↦ leb s.current_date hasta ]
    && any_row
        (λ p.
          p.tenant_id == u.tenant_id && p.id == up.persona_id && es_persona_del_usuario s.tablas p)
        s.personas

-- The joined rows of a unit are one after DISTINCT.
abbrev pub es_mia : Vinculos → UnidadMia → Bool
es_mia s u =
    u.tenant_id == s.tablas.current_tenant && any_row (vinculo_vigente u s) s.unidad_personas

-- ORDER BY u.codigo ASC, u.id ASC
abbrev pub unidad_antes : UnidadMia → UnidadMia → Bool
unidad_antes a b = text_ltb a.codigo b.codigo || (text_eq a.codigo b.codigo && ltb a.id b.id)

unfoldable pub list_unidades_for_current_user : Vinculos → List UnidadMia
unfolding select any_row sort_by text_eq text_ltb
list_unidades_for_current_user s = sort_by unidad_antes (select (es_mia s) s.mis_unidades)

unfoldable pub con_tablas : {A : Type 0} → Vinculos → Result (A × Tablas) → Result (A × Vinculos)
con_tablas s (ok (a, t)) = ok (a, record s { tablas = t })
con_tablas s (err e) = err e

-- A call of internal/reclamos.
unfoldable pub en_tablas : {A : Type 0} → Action Tablas A → Action Vinculos A
unfolding con_tablas
en_tablas m s = con_tablas s (m s.tablas)

module _ (env : Env) where
  -- `parseUUID`, any error of which is a unit without a tie.
  unfoldable pub unidad_pedida : Text → Result Uuid
  unidad_pedida s = elim (env.scan_uuid s) [ none ↦ err sin_vinculo | some u ↦ ok u ]

  unfoldable pub crear_reclamo : ℕ → CreateInput → Action Vinculos ReclamoDto
  unfolding is_empty trim_space unidad_pedida list_unidades_for_current_user find_row en_tablas
      create
  crear_reclamo ahora in_ = do
    raise_if (is_empty (trim_space in_.unidad_id)) sin_vinculo
    id ← lift (unidad_pedida (trim_space in_.unidad_id))
    mias ← gets list_unidades_for_current_user
    u ← or_raise (find_row (λ u. u.id == id) mias) sin_vinculo
    en_tablas (create env ahora (env.uuid_string u.consorcio_id) in_)
