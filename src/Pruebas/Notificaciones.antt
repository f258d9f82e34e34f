-- ===== src/Pruebas/Notificaciones.antt =====
-- Notices run on concrete data.
use consorcioabierto.Prelude.{
  ◌&&◌, ◌==◌, arith, count_rows, count_rows, true, ◌≤◌, ◌+◌, ◌≡◌, refl, some, none, [], ◌∷◌, length,
}
use consorcioabierto.Prelude.Int.{pos}
use consorcioabierto.Prelude.Rows.{IsKey}
use consorcioabierto.Notificaciones.Consultas.{propia, count_notificaciones_no_leidas}
use consorcioabierto.Prelude.Text.{trim_space, codes}
use consorcioabierto.Action.{ok, err}
use consorcioabierto.Notificaciones.Tablas.{Notificacion, Avisos}
use consorcioabierto.Notificaciones.Servicio.{
  uuid_to_pg, Resultado, Listado, NotificacionDto, notificar, listar, marcar_leida,
}
use consorcioabierto.Notificaciones.Lectura.{notificar_dos_veces}
use consorcioabierto.Notificaciones.Marca.{listar-acotado, marcar_leida_descuenta}
use consorcioabierto.Pruebas.Datos.{env_de_prueba}

-- One user was told already, and another one was not.
abbrev avisado : Notificacion
avisado = record {
  tenant_id = 1;
  id = 70;
  user_id = 60;
  tipo = codes "comunicado";
  titulo = codes "Obra";
  cuerpo = [];
  recurso_type = codes "comunicado";
  recurso_id = some 80;
  leida_at = none;
  created_at = 5;
}

abbrev avisos : Avisos
avisos = record {
  sin_politicas = true;
  current_tenant = 1;
  current_user = some 60;
  current_date = 20240701;
  now = 9;
  generated = 0;
  users = 60 ∷ 61 ∷ [];
  notificaciones = avisado ∷ [];
  unidades = record { tenant_id = 1; id = 50; consorcio_id = 40 } ∷ [];
  unidad_personas =
      record {
        tenant_id = 1;
        unidad_id = 50;
        persona_id = 90;
        valid_from = 20240101;
        valid_to = none;
      }
      ∷ record {
        tenant_id = 1;
        unidad_id = 50;
        persona_id = 91;
        valid_from = 20240101;
        valid_to = some 20250101;
      }
      ∷ [];
  personas =
      record { tenant_id = 1; id = 90; user_id = some 60 }
      ∷ record { tenant_id = 1; id = 91; user_id = some 61 }
      ∷ [];
}

abbrev abanico : Resultado × Avisos
unfolding notificar
abanico =
    elim (notificar env_de_prueba (40 ∷ []) (80 ∷ []) (codes "comunicado") (codes "comunicado")
      (codes "Obra") [] avisos) [
        | ok r ↦ r
        | err e ↦ (record { destinatarios = 0; creadas = 0; omitidas = 0 }, avisos)
      ]

abanico-ok :
    notificar env_de_prueba
      (40 ∷ [])
      (80 ∷ [])
      (codes "comunicado")
      (codes "comunicado")
      (codes "Obra")
      []
      avisos
    ≡ ok (abanico.0, abanico.1)
unfolding notificar abanico
abanico-ok = refl

abanico_test : abanico.0 ≡ record { destinatarios = 2; creadas = 1; omitidas = 1 }
unfolding abanico notificar
abanico_test = refl

notificar_dos_veces_example :
    (abanico.0.creadas + abanico.0.omitidas ≡ abanico.0.destinatarios)
    × (notificar env_de_prueba
          (40 ∷ [])
          (80 ∷ [])
          (codes "comunicado")
          (codes "comunicado")
          (codes "Obra")
          []
          abanico.1
        ≡ ok (
          record {
            destinatarios = abanico.0.destinatarios;
            creadas = 0;
            omitidas = abanico.0.destinatarios;
          },
          abanico.1,
        ))
notificar_dos_veces_example =
    notificar_dos_veces env_de_prueba (40 ∷ []) (80 ∷ []) (codes "comunicado") (codes "comunicado")
      (codes "Obra") [] avisos abanico.1 abanico.0 abanico-ok

abbrev listado : Listado × Avisos
unfolding listar
listado = elim (listar env_de_prueba true (pos 1000) avisos) [
  | ok r ↦ r
  | err e ↦ (record { avisos = []; no_leidas = 0 }, avisos)
]

listado-ok : listar env_de_prueba true (pos 1000) avisos ≡ ok (listado.0, listado.1)
unfolding listar listado
listado-ok = refl

listar-acotado_example : length listado.0.avisos ≤ 200
listar-acotado_example =
    listar-acotado env_de_prueba true (pos 1000) avisos listado.0 listado.1 listado-ok

abbrev marca : NotificacionDto × Avisos
unfolding marcar_leida
marca = elim (marcar_leida env_de_prueba (70 ∷ []) avisos) [
  | ok r ↦ r
  | err e ↦ (
    record {
      id = [];
      tipo = [];
      titulo = [];
      cuerpo = [];
      recurso_type = [];
      recurso_id = none;
      leida_at = none;
      created_at = 0;
    },
    avisos,
  )
]

marca-ok : marcar_leida env_de_prueba (70 ∷ []) avisos ≡ ok (marca.0, marca.1)
unfolding marcar_leida marca
marca-ok = refl

clave_unica : IsKey (λ m. propia avisos m && m.id == 70) avisos.notificaciones
unfolding count_rows
clave_unica = omega arith

marcar_leida_descuenta_example :
    count_notificaciones_no_leidas avisos ≡ count_notificaciones_no_leidas marca.1 + 1
unfolding uuid_to_pg trim_space
marcar_leida_descuenta_example =
    marcar_leida_descuenta env_de_prueba (70 ∷ []) 70 avisos marca.1 marca.0 refl clave_unica
      marca-ok
