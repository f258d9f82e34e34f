-- ===== src/Reclamos/Servicio.antt =====
-- internal/reclamos/reclamos.go: the operations on claims.
use consorcioabierto.Prelude.{
  not, false, ℕ, ◌+◌, Bool, Option, none, some, List, [], ltb, if◌then◌else◌, map, length,
}
use consorcioabierto.Prelude.Text.{Text, trim_space, to_lower, is_empty}
use consorcioabierto.Action.{
  Action, ok, err, Result, pure, gets, lift, or_raise, raise_if, ◌>>=◌, ◌>>◌, invalid_id, no_rows,
  categoria_obligatoria, texto_corto, texto_obligatorio, adjunto_inexistente,
}
use consorcioabierto.Env.{Uuid, Env}
use consorcioabierto.Reclamos.Maquina.{EstadoReclamo, accion_of, siguiente}
use consorcioabierto.Reclamos.Tablas.{Reclamo, ReclamoMensaje, ReclamoTransicion, Tablas}
use consorcioabierto.Reclamos.Consultas.{
  get_reclamo, list_reclamos, list_reclamo_mensajes, list_reclamo_transiciones, documento_existe,
  update_reclamo_estado, create_reclamo, insert_reclamo_mensaje, insert_reclamo_transicion,
}

pub record ReclamoDto : Type 0 where
  pub id : Text
  pub consorcio_id : Text
  pub unidad_id : Text
  pub categoria : Text
  pub estado : EstadoReclamo
  pub responsable_id : Option Text
  pub created_at : ℕ

pub record MensajeDto : Type 0 where
  pub id : Text
  pub reclamo_id : Text
  pub texto : Text
  pub adjunto_id : Option Text
  pub created_at : ℕ

pub record TransicionDto : Type 0 where
  pub id : Text
  pub reclamo_id : Text
  pub accion : Text
  pub motivo : Option Text
  pub responsable_id : Option Text
  pub created_at : ℕ

pub record ReclamoDetalle : Type 0 where
  pub reclamo : ReclamoDto
  pub mensajes : List MensajeDto
  pub transiciones : List TransicionDto

pub record CreateInput : Type 0 where
  pub unidad_id : Text
  pub categoria : Text
  pub texto : Text

pub record MensajeInput : Type 0 where
  pub texto : Text
  pub adjunto_id : Option Text

pub record TransicionInput : Type 0 where
  pub accion : Text
  pub motivo : Option Text
  pub responsable_id : Option Text

-- `slaDuracion`, 72 hours, in the microseconds of a TIMESTAMPTZ.
abbrev pub sla_duracion : ℕ
sla_duracion = 259200000000

unfoldable pub optional_text : Option Text → Text
optional_text none = []
optional_text (some s) = s

-- A text as a nullable column.
abbrev pub valid_if_not_empty : Text → Option Text
valid_if_not_empty s = if is_empty s then none else some s

-- Whoever was in charge stays, where nobody is named.
unfoldable pub responsable_o : Option Uuid → Option Uuid → Option Uuid
responsable_o none actual = actual
responsable_o (some u) actual = some u

module _ (env : Env) where
  optional_string : Option Uuid → Option Text
  optional_string none = none
  optional_string (some u) = some (env.uuid_string u)

  unfoldable pub to_reclamo : Reclamo → ReclamoDto
  unfolding optional_string
  to_reclamo row = record {
    id = env.uuid_string row.id;
    consorcio_id = env.uuid_string row.consorcio_id;
    unidad_id = env.uuid_string row.unidad_id;
    categoria = row.categoria;
    estado = row.estado;
    responsable_id = optional_string row.responsable_id;
    created_at = row.created_at;
  }

  unfoldable pub to_mensaje : ReclamoMensaje → MensajeDto
  unfolding optional_string
  to_mensaje row = record {
    id = env.uuid_string row.id;
    reclamo_id = env.uuid_string row.reclamo_id;
    texto = row.texto;
    adjunto_id = optional_string row.adjunto_id;
    created_at = row.created_at;
  }

  unfoldable pub to_transicion : ReclamoTransicion → TransicionDto
  unfolding optional_string
  to_transicion row = record {
    id = env.uuid_string row.id;
    reclamo_id = env.uuid_string row.reclamo_id;
    accion = row.accion;
    motivo = row.motivo;
    responsable_id = optional_string row.responsable_id;
    created_at = row.created_at;
  }

  unfoldable pub parse_id : Text → Result Uuid
  parse_id s = elim (env.parse_uuid s) [ none ↦ err invalid_id | some u ↦ ok u ]

  some_id : Result Uuid → Result (Option Uuid)
  some_id (ok u) = ok (some u)
  some_id (err e) = err e

  unfoldable pub optional_uuid : Option Text → Result (Option Uuid)
  unfolding parse_id trim_space is_empty some_id
  optional_uuid none = ok none
  optional_uuid (some s) =
      if is_empty (trim_space s) then ok none else some_id (parse_id (trim_space s))

  unfoldable pub list : Text → Text → Action Tablas (List ReclamoDto)
  unfolding parse_id trim_space list_reclamos to_reclamo
  list consorcio_id estado = do
    consorcio ← lift (parse_id consorcio_id)
    rows ← gets (list_reclamos consorcio (trim_space estado))
    pure (map (to_reclamo) rows)

  -- `ahora` is the clock of the program at the call.
  unfoldable pub create : ℕ → Text → CreateInput → Action Tablas ReclamoDto
  unfolding parse_id trim_space is_empty create_reclamo to_reclamo
  create ahora consorcio_id in_ = do
    raise_if (is_empty (trim_space in_.categoria)) categoria_obligatoria
    raise_if (ltb (length (trim_space in_.texto)) 3) texto_corto
    consorcio ← lift (parse_id consorcio_id)
    unidad ← lift (parse_id (trim_space in_.unidad_id))
    row ←
        create_reclamo env consorcio unidad (trim_space in_.categoria) (trim_space in_.texto)
          (some (ahora + sla_duracion))
    pure (to_reclamo row)

  unfoldable pub get : Text → Action Tablas ReclamoDetalle
  unfolding parse_id get_reclamo list_reclamo_mensajes list_reclamo_transiciones to_reclamo
      to_mensaje to_transicion
  get reclamo_id = do
    id ← lift (parse_id reclamo_id)
    found ← gets (get_reclamo id)
    row ← or_raise found no_rows
    mensajes ← gets (list_reclamo_mensajes id)
    historia ← gets (list_reclamo_transiciones id)
    pure (record {
      reclamo = to_reclamo row;
      mensajes = map (to_mensaje) mensajes;
      transiciones = map (to_transicion) historia;
    })

  unfoldable pub adjunto_ausente : Option Uuid → Tablas → Bool
  unfolding documento_existe
  adjunto_ausente none t = false
  adjunto_ausente (some d) t = not (documento_existe d t)

  unfoldable pub add_mensaje : Text → MensajeInput → Action Tablas MensajeDto
  unfolding parse_id optional_uuid trim_space is_empty adjunto_ausente insert_reclamo_mensaje
      to_mensaje
  add_mensaje reclamo_id in_ = do
    raise_if (is_empty (trim_space in_.texto)) texto_obligatorio
    id ← lift (parse_id reclamo_id)
    adjunto ← lift (optional_uuid in_.adjunto_id)
    ausente ← gets (adjunto_ausente adjunto)
    raise_if ausente adjunto_inexistente
    row ← insert_reclamo_mensaje env id (trim_space in_.texto) adjunto
    pure (to_mensaje row)

  -- What is left once the next state is known: the history, then the claim.
  unfoldable pub aplicar :
      Uuid → Text → Text → Option Uuid → EstadoReclamo → EstadoReclamo → Action Tablas ReclamoDto
  unfolding is_empty insert_reclamo_transicion update_reclamo_estado to_reclamo
  aplicar id accion motivo responsable desde hasta = do
    insert_reclamo_transicion env id accion (valid_if_not_empty motivo) desde hasta responsable
    updated ← update_reclamo_estado id hasta responsable
    pure (to_reclamo updated)

  unfoldable pub transicionar : Text → TransicionInput → Action Tablas ReclamoDto
  unfolding parse_id optional_uuid optional_text trim_space to_lower accion_of get_reclamo siguiente
      responsable_o aplicar
  transicionar reclamo_id in_ = do
    id ← lift (parse_id reclamo_id)
    responsable ← lift (optional_uuid in_.responsable_id)
    found ← gets (get_reclamo id)
    row ← or_raise found no_rows
    hasta ← lift (
        siguiente row.estado (accion_of (to_lower (trim_space in_.accion))) responsable
          (trim_space (optional_text in_.motivo)))
    aplicar id (to_lower (trim_space in_.accion)) (trim_space (optional_text in_.motivo))
        (responsable_o responsable row.responsable_id) row.estado hasta
