-- ===== src/Pruebas/Portal.antt =====
-- A claim of the portal on concrete data.
use consorcioabierto.Prelude.{
  sym, ◌+◌, ◌∙◌, ◌≡◌, refl, some, none, [], ◌∷◌, any_row, find_row, select,
}
use consorcioabierto.Prelude.Text.{codes, text_eq, text_ltb, trim_space, is_empty}
use consorcioabierto.Prelude.Sort.{sort_by}
use consorcioabierto.Action.{ok}
use consorcioabierto.Env.{ParseRoundTrip, ParsersAgree}
use consorcioabierto.Reclamos.Maquina.{abierto}
use consorcioabierto.Reclamos.Historial.{some_inj}
use consorcioabierto.Reclamos.Servicio.{
  ReclamoDto, CreateInput, create, parse_id, to_reclamo, sla_duracion,
}
use consorcioabierto.Reclamos.Consultas.{create_reclamo}
use consorcioabierto.Portal.{
  UnidadMia, Vinculos, crear_reclamo, list_unidades_for_current_user, en_tablas, con_tablas,
  unidad_pedida,
}
use consorcioabierto.Portal.Alcance.{Abierto, Vinculado, crear_reclamo-propia}
use consorcioabierto.Pruebas.Datos.{env_de_prueba}

abbrev departamento : UnidadMia
departamento = record { tenant_id = 1; consorcio_id = 2; id = 50; codigo = codes "A" }

abbrev vinculos : Vinculos
vinculos = record {
  current_date = 20240601;
  mis_unidades = record departamento { id = 51; codigo = codes "B" } ∷ departamento ∷ [];
  unidad_personas =
      record {
        tenant_id = 1;
        unidad_id = 50;
        persona_id = 70;
        valid_from = 20240101;
        valid_to = none;
      }
      ∷ [];
  personas = record { tenant_id = 1; id = 70; user_id = some 60 } ∷ [];
  tablas = record {
    current_tenant = 1;
    current_user = some 60;
    now = 9;
    generated = 0;
    reclamos = [];
    reclamo_mensajes = [];
    reclamo_transiciones = [];
    documentos = [];
    consorcios = record { tenant_id = 1; id = 2 } ∷ [];
    unidades = record { tenant_id = 1; id = 50 } ∷ [];
    users = 60 ∷ [];
  };
}

abbrev gotera : CreateInput
gotera = record { unidad_id = 50 ∷ []; categoria = codes "agua"; texto = codes "gotea" }

abbrev abierta : ReclamoDto
abierta = record {
  id = 1000 ∷ [];
  consorcio_id = 2 ∷ [];
  unidad_id = 50 ∷ [];
  categoria = codes "agua";
  estado = abierto;
  responsable_id = none;
  created_at = 9;
}

abbrev despues : Vinculos
despues = record vinculos {
  tablas = record vinculos.tablas {
    generated = 1;
    reclamos =
        record {
          tenant_id = 1;
          consorcio_id = 2;
          unidad_id = 50;
          id = 1000;
          categoria = codes "agua";
          texto = codes "gotea";
          estado = abierto;
          responsable_id = none;
          sla_due_at = some (9 + sla_duracion);
          created_by = some 60;
          created_at = 9;
          updated_at = 9;
        }
        ∷ [];
  };
}

ida : ParseRoundTrip env_de_prueba
ida u = refl

acuerdo : ParsersAgree env_de_prueba
acuerdo s a b h h' = some_inj (sym h ∙ h')

abre : crear_reclamo env_de_prueba 9 gotera vinculos ≡ ok (abierta, despues)
unfolding crear_reclamo list_unidades_for_current_user en_tablas con_tablas unidad_pedida create
    parse_id create_reclamo to_reclamo any_row find_row select sort_by text_eq text_ltb trim_space
    is_empty
abre = refl

crear_reclamo-propia_example :
    (u : UnidadMia) × Vinculado vinculos u
    × Abierto vinculos.tablas despues.tablas u.consorcio_id u.id
crear_reclamo-propia_example =
    crear_reclamo-propia env_de_prueba 9 gotera vinculos despues abierta ida acuerdo abre
