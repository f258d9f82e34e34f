-- ===== src/Notificaciones/Lectura.antt =====
-- A publication that is notified again, and notices that are read.
use mathlib.Core.Path.{subst}
use consorcioabierto.Prelude.{
  ℕ, ◌+◌, true, false, List, [], ◌∷◌, ◌≡◌, refl, sym, ap, ◌∙◌, length, All, arith,
}
use consorcioabierto.Prelude.Text.{Text, trim_space, is_empty}
use consorcioabierto.Action.{
  ok, limite_invalido, lift, raise_if, >>=-eq-ok, lift-ok, raise_if-ok, lift_after,
}
use consorcioabierto.Env.{Uuid, Env}
use consorcioabierto.Notificaciones.Tablas.{Notificacion, Avisos, UnidadPersona}
use consorcioabierto.Notificaciones.Consultas.{
  tipo_fits, visible_para, list_destinatarios, join_users,
}
use consorcioabierto.Notificaciones.Servicio.{Resultado, uuid_to_pg, avisar, notificar}
use consorcioabierto.Notificaciones.Abanico.{con_avisos, Hecho, avisar-Hecho, avisar_de_nuevo}

join-igual :
    (consorcio : Uuid) (db : Avisos) (extra : List Notificacion) (n : ℕ) (ups : List UnidadPersona)
    → join_users consorcio (con_avisos extra n db) ups ≡ join_users consorcio db ups
unfolding join_users
join-igual consorcio db extra n [] = refl
join-igual consorcio db extra n (up ∷ ups) = rw (join-igual consorcio db extra n ups) refl

-- New notices change no recipient.
destinatarios-igual :
    (consorcio : Uuid) (db : Avisos) (extra : List Notificacion) (n : ℕ)
    → list_destinatarios consorcio (con_avisos extra n db) ≡ list_destinatarios consorcio db
unfolding list_destinatarios
destinatarios-igual consorcio db extra n =
    rw (join-igual consorcio db extra n db.unidad_personas) refl

cero_mas : (n : ℕ) → 0 + n ≡ n
cero_mas n = omega arith

abbrev inicio : List Uuid → Resultado
inicio us = record { destinatarios = length us; creadas = 0; omitidas = 0 }

module _ (env : Env) (consorcio_id recurso_id tipo recurso_type titulo cuerpo : Text) where
  -- What a call that succeeded read.
  leido :
      (db : Avisos) (res : Resultado) (db' : Avisos)
      → notificar env consorcio_id recurso_id tipo recurso_type titulo cuerpo db ≡ ok (res, db')
      → (consorcio : Uuid) × (recurso : Uuid) × (uuid_to_pg env consorcio_id ≡ ok consorcio)
        × (uuid_to_pg env recurso_id ≡ ok recurso)
        × (is_empty (trim_space titulo) ≡ false)
        × (avisar env tipo
              (trim_space titulo)
              cuerpo
              recurso_type
              recurso
              (list_destinatarios consorcio db)
              (inicio (list_destinatarios consorcio db))
              db
            ≡ ok (res, db'))
  unfolding notificar
  leido db res db' h =
      let (consorcio, d₁, e₁, h₁) = >>=-eq-ok (lift (uuid_to_pg env consorcio_id)) _ db h in
      let (c, s₁) = lift-ok (uuid_to_pg env consorcio_id) db e₁ in
      let (recurso, d₂, e₂, h₂) = >>=-eq-ok (lift (uuid_to_pg env recurso_id)) _ d₁ h₁ in
      let (r, s₂) = lift-ok (uuid_to_pg env recurso_id) d₁ e₂ in
      let (t, d₃, e₃, h₃) =
        >>=-eq-ok (raise_if (is_empty (trim_space titulo)) limite_invalido) _ d₂ h₂ in
      let (lleno, s₃) = raise_if-ok (is_empty (trim_space titulo)) limite_invalido d₂ e₃ in
      (
        consorcio,
        recurso,
        c,
        r,
        lleno,
        subst
            (λ d.
              avisar env tipo (trim_space titulo) cuerpo recurso_type recurso
                (list_destinatarios consorcio d) (inicio (list_destinatarios consorcio d)) d
              ≡ ok (res, db'))
            (ap (λ p. p.1) s₃ ∙ (s₂ ∙ s₁)) h₃,
      )

  -- The call, once it has read.
  pub sigue :
      (db : Avisos) (consorcio recurso : Uuid)
      → uuid_to_pg env consorcio_id ≡ ok consorcio
      → uuid_to_pg env recurso_id ≡ ok recurso
      → is_empty (trim_space titulo) ≡ false
      → notificar env consorcio_id recurso_id tipo recurso_type titulo cuerpo db
        ≡ avisar env tipo
            (trim_space titulo)
            cuerpo
            recurso_type
            recurso
            (list_destinatarios consorcio db)
            (inicio (list_destinatarios consorcio db))
            db
  unfolding notificar
  sigue db consorcio recurso c r lleno =
      lift_after (uuid_to_pg env consorcio_id) _ db consorcio c
      ∙ (lift_after (uuid_to_pg env recurso_id) _ db recurso r ∙ rw lleno refl)

  abbrev Visible : Avisos → Uuid → Type 0
  Visible d u = (visible_para u d ≡ true) × (tipo_fits tipo ≡ true)

  permitidos_en :
      (recurso : Uuid) (us : List Uuid) (db : Avisos) (extra : List Notificacion) (n : ℕ)
      → All (Visible db) us
      → All (Visible (con_avisos extra n db)) us
  unfolding visible_para
  permitidos_en recurso [] db extra n h = h
  permitidos_en recurso (u ∷ us) db extra n h = (h.0, permitidos_en recurso us db extra n h.1)

  otra_vez :
      (us us' : List Uuid) (recurso : Uuid) (db db' : Avisos) (res : Resultado)
      → us' ≡ us
      → Hecho env tipo (trim_space titulo) cuerpo recurso_type recurso us (inicio us) db res db'
      → avisar env tipo (trim_space titulo) cuerpo recurso_type recurso us' (inicio us') db'
        ≡ ok (
          record { destinatarios = res.destinatarios; creadas = 0; omitidas = res.destinatarios },
          db',
        )
  otra_vez us us' recurso db db' res mismos h =
      let vez =
        avisar_de_nuevo env tipo (trim_space titulo) cuerpo recurso_type recurso us (inicio us) db'
          h.avisados
          (subst (λ d. All (Visible d) us) (sym h.tablas)
            (permitidos_en recurso us db h.extra h.generados h.permitidos)) in
      subst
        (λ x.
          avisar env tipo (trim_space titulo) cuerpo recurso_type recurso x (inicio x) db'
          ≡ ok (
            record { destinatarios = res.destinatarios; creadas = 0; omitidas = res.destinatarios },
            db',
          ))
        (sym mismos)
        (vez
          ∙ (ap (λ m. ok (record { destinatarios = length us; creadas = 0; omitidas = m }, db'))
                (cero_mas (length us))
              ∙ ap (λ m. ok (record { destinatarios = m; creadas = 0; omitidas = m }, db'))
                  (sym h.destinatarios_igual)))

-- A publication whose notices were made is complete: every recipient's notice was made or was there.
-- A worker that runs it again changes nothing, makes no notice and counts them all as there.
pub notificar_dos_veces :
    (env : Env) (consorcio_id recurso_id tipo recurso_type titulo cuerpo : Text) (db db' : Avisos)
    (res : Resultado)
    → notificar env consorcio_id recurso_id tipo recurso_type titulo cuerpo db ≡ ok (res, db')
    → (res.creadas + res.omitidas ≡ res.destinatarios)
      × (notificar env consorcio_id recurso_id tipo recurso_type titulo cuerpo db'
          ≡ ok (
            record { destinatarios = res.destinatarios; creadas = 0; omitidas = res.destinatarios },
            db',
          ))
notificar_dos_veces env consorcio_id recurso_id tipo recurso_type titulo cuerpo db db' res h =
    let (consorcio, recurso, c, r, lleno, hizo) =
      leido env consorcio_id recurso_id tipo recurso_type titulo cuerpo db res db' h in
    let hecho =
      avisar-Hecho env tipo (trim_space titulo) cuerpo recurso_type recurso
        (list_destinatarios consorcio db) (inicio (list_destinatarios consorcio db)) db res db'
        hizo in
    let mismos =
      ap (λ d. list_destinatarios consorcio d) hecho.tablas
      ∙ destinatarios-igual consorcio db hecho.extra hecho.generados in
    (
      omega (arith, hecho.cuenta, hecho.destinatarios_igual),
      sigue env consorcio_id recurso_id tipo recurso_type titulo cuerpo db' consorcio recurso c r
            lleno
          ∙ otra_vez env consorcio_id recurso_id tipo recurso_type titulo cuerpo
              (list_destinatarios consorcio db) (list_destinatarios consorcio db') recurso db db'
              res mismos hecho,
    )
