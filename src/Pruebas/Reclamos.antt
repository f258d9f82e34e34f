-- ===== src/Pruebas/Reclamos.antt =====
-- Claims run on concrete data.
use consorcioabierto.Prelude.{◌≡◌, refl, some, none, [], ◌∷◌, select}
use consorcioabierto.Prelude.Text.{codes, trim_space, to_lower}
use consorcioabierto.Action.{ok, err}
use consorcioabierto.Reclamos.Maquina.{abierto, en_progreso, cerrado, accion_of, cerrar}
use consorcioabierto.Reclamos.Tablas.{Reclamo, Tablas}
use consorcioabierto.Reclamos.Consultas.{get_reclamo, user_existe}
use consorcioabierto.Reclamos.Servicio.{
  ReclamoDto, CreateInput, TransicionInput, create, to_reclamo, parse_id, optional_uuid,
  transicionar, responsable_o,
}
use consorcioabierto.Reclamos.Pasos.{cerrar_abierto}
use consorcioabierto.Reclamos.Refina.{
  Aceptado, reclamo_tras, tras_pedido, transicionar-Paso, transicionar_sigue_pasos,
}
use consorcioabierto.Reclamos.Historial.{IsConsistente, Camino, historia}
use consorcioabierto.Reclamos.Llamadas.{ninguna, otra, creado, pasado, historial_explica_estado}
use consorcioabierto.Reclamos.Alcance.{Llega, todo_estado_se_alcanza}
use consorcioabierto.Pruebas.Datos.{env_de_prueba}

abbrev gotera : Reclamo
gotera = record {
  tenant_id = 1;
  consorcio_id = 2;
  unidad_id = 50;
  id = 40;
  categoria = codes "agua";
  texto = codes "gotea";
  estado = abierto;
  responsable_id = none;
  sla_due_at = none;
  created_by = some 60;
  created_at = 5;
  updated_at = 5;
}

abbrev tablas : Tablas
tablas = record {
  current_tenant = 1;
  current_user = some 60;
  now = 9;
  generated = 0;
  reclamos = gotera ∷ [];
  reclamo_mensajes = [];
  reclamo_transiciones = [];
  documentos = [];
  consorcios = record { tenant_id = 1; id = 2 } ∷ [];
  unidades = record { tenant_id = 1; id = 50 } ∷ [];
  users = 60 ∷ [];
}

abbrev sin_reclamos : Tablas
sin_reclamos = record tablas { reclamos = [] }

abbrev pedido : TransicionInput
pedido = record { accion = codes " Cerrar "; motivo = none; responsable_id = some (60 ∷ []) }

abbrev despues : Tablas
despues = tras_pedido env_de_prueba 40 pedido (some 60) gotera cerrado tablas

abbrev respuesta : ReclamoDto
respuesta = to_reclamo env_de_prueba (reclamo_tras (some 60) gotera cerrado tablas)

cierre : transicionar env_de_prueba (40 ∷ []) pedido tablas ≡ ok (respuesta, despues)
unfolding transicionar
cierre = refl

transicionar-Paso_example :
    transicionar env_de_prueba (40 ∷ []) pedido tablas ≡ ok (respuesta, despues)
unfolding accion_of to_lower trim_space get_reclamo parse_id optional_uuid user_existe responsable_o
transicionar-Paso_example =
    transicionar-Paso env_de_prueba (40 ∷ []) pedido tablas 40 (some 60) gotera refl refl refl
      cerrar cerrado refl refl cerrar_abierto

leido : parse_id env_de_prueba (40 ∷ []) ≡ ok 40
unfolding parse_id
leido = refl

nombrado : optional_uuid env_de_prueba (some (60 ∷ [])) ≡ ok (some 60)
unfolding optional_uuid
nombrado = refl

hallado : get_reclamo 40 tablas ≡ some gotera
unfolding get_reclamo
hallado = refl

transicionar_sigue_pasos_example :
    Aceptado env_de_prueba
      (40 ∷ [])
      pedido
      tablas
      40
      (some 60)
      gotera
      leido
      nombrado
      hallado
      respuesta
      despues
transicionar_sigue_pasos_example =
    transicionar_sigue_pasos env_de_prueba (40 ∷ []) pedido tablas 40 (some 60) gotera leido
      nombrado hallado respuesta despues cierre

todo_estado_se_alcanza_example : Llega env_de_prueba (40 ∷ []) 40 2 en_progreso tablas
unfolding parse_id get_reclamo user_existe
todo_estado_se_alcanza_example =
    todo_estado_se_alcanza env_de_prueba (40 ∷ []) 40 refl abierto en_progreso tablas
      (gotera, refl, refl, refl)

vacias : IsConsistente sin_reclamos
unfolding get_reclamo select
vacias = record { completa = λ id r e. cc e; sin_huerfanas = λ id e. refl }

abbrev alta : CreateInput
alta = record { unidad_id = 50 ∷ []; categoria = codes "agua"; texto = codes "gotea" }

abbrev con_alta : ReclamoDto × Tablas
unfolding create
con_alta = elim (create env_de_prueba 100 (2 ∷ []) alta sin_reclamos) [
  | ok r ↦ r
  | err e ↦ (respuesta, tablas)
]

abbrev con_cierre : ReclamoDto × Tablas
unfolding transicionar con_alta
con_cierre = elim (transicionar env_de_prueba (1000 ∷ []) pedido con_alta.1) [
  | ok r ↦ r
  | err e ↦ (respuesta, tablas)
]

alta-ok : create env_de_prueba 100 (2 ∷ []) alta sin_reclamos ≡ ok (con_alta.0, con_alta.1)
unfolding create con_alta
alta-ok = refl

cierre-ok :
    transicionar env_de_prueba (1000 ∷ []) pedido con_alta.1 ≡ ok (con_cierre.0, con_cierre.1)
unfolding transicionar con_alta con_cierre
cierre-ok = refl

abbrev cerrado_nuevo : Reclamo
cerrado_nuevo = record gotera {
  id = 1000;
  estado = cerrado;
  responsable_id = some 60;
  sla_due_at = some 259200000100;
  created_at = 9;
  updated_at = 9;
}

historial_explica_estado_example : Camino abierto (historia 1000 con_cierre.1) cerrado
unfolding get_reclamo con_cierre con_alta
historial_explica_estado_example =
    historial_explica_estado env_de_prueba sin_reclamos con_cierre.1 1000 cerrado_nuevo vacias
      (otra (otra ninguna (creado 100 (2 ∷ []) alta con_alta.0 alta-ok))
        (pasado (1000 ∷ []) pedido con_cierre.0 cierre-ok))
      refl
