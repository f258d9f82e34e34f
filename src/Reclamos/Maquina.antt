-- ===== src/Reclamos/Maquina.antt =====
-- internal/reclamos/reclamos.go: the states of a claim and the actions that lead from one to another.
use consorcioabierto.Prelude.{Bool, true, false, Option, none, some, if◌then◌else◌}
use consorcioabierto.Prelude.Text.{Text, codes, text_eq, is_empty}
use consorcioabierto.Action.{
  Result, ok, err, invalid_transition, asignar_sin_responsable, reabrir_sin_motivo,
}
use consorcioabierto.Env.{Uuid}

pub data EstadoReclamo : Type 0 where
  abierto en_progreso resuelto cerrado : EstadoReclamo

abbrev pub estado_text : EstadoReclamo → Text
estado_text abierto = codes "abierto"
estado_text en_progreso = codes "en_progreso"
estado_text resuelto = codes "resuelto"
estado_text cerrado = codes "cerrado"

pub data Accion : Type 0 where
  asignar pasar_en_progreso resolver cerrar reabrir : Accion

-- The action that a text names.
unfoldable pub accion_of : Text → Option Accion
unfolding text_eq
accion_of a =
    if text_eq a (codes "asignar")
    then some asignar
    else if text_eq a (codes "en_progreso")
    then some pasar_en_progreso
    else if text_eq a (codes "resolver")
    then some resolver
    else if text_eq a (codes "cerrar")
    then some cerrar
    else if text_eq a (codes "reabrir")
    then some reabrir
    else none

unfoldable pub transiciones : EstadoReclamo → Accion → Option EstadoReclamo
transiciones abierto pasar_en_progreso = some en_progreso
transiciones abierto resolver = some resuelto
transiciones abierto cerrar = some cerrado
transiciones en_progreso resolver = some resuelto
transiciones en_progreso cerrar = some cerrado
transiciones resuelto cerrar = some cerrado
transiciones resuelto reabrir = some abierto
transiciones cerrado reabrir = some abierto
transiciones _ _ = none

unfoldable pub acciones_reasignacion : EstadoReclamo → Bool
acciones_reasignacion abierto = true
acciones_reasignacion en_progreso = true
acciones_reasignacion _ = false

-- To assign needs a state that allows it and somebody in charge, and keeps the state.
unfoldable pub reasignar : EstadoReclamo → Option Uuid → Result EstadoReclamo
unfolding acciones_reasignacion
reasignar desde none =
    if acciones_reasignacion desde then err asignar_sin_responsable else err invalid_transition
reasignar desde (some u) = if acciones_reasignacion desde then ok desde else err invalid_transition

-- A reopening needs a reason.
unfoldable pub con_motivo : Accion → Text → EstadoReclamo → Result EstadoReclamo
unfolding is_empty
con_motivo reabrir motivo hasta = if is_empty motivo then err reabrir_sin_motivo else ok hasta
con_motivo _ motivo hasta = ok hasta

-- The state that an action leads to, or the error that refuses it; a text that names no action is
-- no key of `transiciones`.
unfoldable pub siguiente : EstadoReclamo → Option Accion → Option Uuid → Text → Result EstadoReclamo
unfolding reasignar transiciones con_motivo
siguiente desde none responsable motivo = err invalid_transition
siguiente desde (some asignar) responsable motivo = reasignar desde responsable
siguiente desde (some accion) responsable motivo = elim (transiciones desde accion) [
  | none ↦ err invalid_transition
  | some hasta ↦ con_motivo accion motivo hasta
]
