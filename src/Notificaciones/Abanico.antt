-- ===== src/Notificaciones/Abanico.antt =====
-- The fan-out of a publication is complete, and running it again makes no notice twice.
use mathlib.Core.Path.{subst}
use consorcioabierto.Prelude.{
  ℕ, ◌+◌, Bool, true, false, List, [], ◌∷◌, ◌++◌, ◌≡◌, refl, sym, ap, ◌∙◌, inl, inr, Bool-cases,
  any_row, length, All, arith, if◌then◌else◌,
}
use consorcioabierto.Prelude.Text.{Text, text_eq_refl}
use consorcioabierto.Action.{
  Result, ok, err, ok_inj, no_rows, rls_violation, check_violation, foreign_key_violation,
}
use consorcioabierto.Env.{Uuid, Env}
use consorcioabierto.Notificaciones.Tablas.{Notificacion, Avisos}
use consorcioabierto.Notificaciones.Consultas.{
  mismo_aviso, visible_para, nuevo_aviso, insert_notificacion, tipo_fits, user_hay,
}
use consorcioabierto.Notificaciones.Servicio.{
  sin_filas, Resultado, sumar_creada, sumar_omitida, avisar,
}

any_row-append :
    {A : Type 0} (p : A → Bool) (xs ys : List A) → any_row p xs ≡ true → any_row p (xs ++ ys) ≡ true
unfolding any_row
any_row-append p [] ys h = cc
any_row-append p (x ∷ xs) ys h = elim (Bool-cases (p x)) [
  | inl fits ↦ rw fits refl
  | inr other ↦ rw other (any_row-append p xs ys (rw other at h))
]

any_row-last :
    {A : Type 0} (p : A → Bool) (xs : List A) (y : A) → p y ≡ true → any_row p (xs ++ y ∷ []) ≡ true
unfolding any_row
any_row-last p [] y h = rw h refl
any_row-last p (x ∷ xs) y h = elim (Bool-cases (p x)) [
  | inl fits ↦ rw fits refl
  | inr other ↦ rw other (any_row-last p xs y h)
]

append_assoc : {A : Type 0} (xs ys zs : List A) → (xs ++ ys) ++ zs ≡ xs ++ (ys ++ zs)
append_assoc [] ys zs = refl
append_assoc (x ∷ xs) ys zs = ap (λ l. x ∷ l) (append_assoc xs ys zs)

append_nil : {A : Type 0} (xs : List A) → xs ++ [] ≡ xs
append_nil [] = refl
append_nil (x ∷ xs) = ap (λ l. x ∷ l) (append_nil xs)

-- The tables with more notices.
abbrev pub con_avisos : List Notificacion → ℕ → Avisos → Avisos
con_avisos extra n db = record db { notificaciones = db.notificaciones ++ extra; generated = n }

module _ (env : Env) (tipo titulo cuerpo recurso_type : Text) (recurso : Uuid) where
  abbrev pub Avisado : Avisos → Uuid → Type 0
  Avisado db u = any_row (mismo_aviso u tipo recurso db) db.notificaciones ≡ true

  abbrev pub Permitido : Avisos → Uuid → Type 0
  Permitido db u = (visible_para u db ≡ true) × (tipo_fits tipo ≡ true)

  -- What a fan-out that succeeded has done.
  pub record Hecho (us : List Uuid) (res : Resultado) (db : Avisos) (res' : Resultado)
      (db' : Avisos) : Type 0 where
    pub extra : List Notificacion
    pub generados : ℕ
    pub tablas : db' ≡ con_avisos extra generados db
    pub avisados : All (Avisado db') us
    pub permitidos : All (Permitido db) us
    pub destinatarios_igual : res'.destinatarios ≡ res.destinatarios
    pub creadas_extra : res'.creadas ≡ res.creadas + length extra
    pub cuenta : res'.creadas + res'.omitidas ≡ res.creadas + res.omitidas + length us

  -- One recipient: there was a notice, or there is one more.
  pub insertado :
      (u : Uuid) (db : Avisos)
      → Permitido db u
      → any_row (mismo_aviso u tipo recurso db) db.notificaciones ≡ false
      → user_hay u db ≡ true
      → let row = nuevo_aviso env u tipo titulo cuerpo recurso_type recurso db in
        insert_notificacion env u tipo titulo cuerpo recurso_type recurso db
        ≡ ok (row, con_avisos (row ∷ []) (db.generated + 1) db)
  unfolding insert_notificacion
  insertado u db v n e = rw (v.0, v.1, n, e) refl

  pub repetido :
      (u : Uuid) (db : Avisos)
      → Permitido db u
      → Avisado db u
      → insert_notificacion env u tipo titulo cuerpo recurso_type recurso db ≡ err no_rows
  unfolding insert_notificacion
  repetido u db v n = rw (v.0, v.1, n) refl

  prohibido :
      (u : Uuid) (db : Avisos)
      → visible_para u db ≡ false
      → insert_notificacion env u tipo titulo cuerpo recurso_type recurso db ≡ err rls_violation
  unfolding insert_notificacion
  prohibido u db v = rw v refl

  de_otro_tipo :
      (u : Uuid) (db : Avisos)
      → visible_para u db ≡ true
      → tipo_fits tipo ≡ false
      → insert_notificacion env u tipo titulo cuerpo recurso_type recurso db ≡ err check_violation
  unfolding insert_notificacion
  de_otro_tipo u db v t = rw (v, t) refl

  sin_usuario :
      (u : Uuid) (db : Avisos)
      → Permitido db u
      → any_row (mismo_aviso u tipo recurso db) db.notificaciones ≡ false
      → user_hay u db ≡ false
      → insert_notificacion env u tipo titulo cuerpo recurso_type recurso db
        ≡ err foreign_key_violation
  unfolding insert_notificacion
  sin_usuario u db v n e = rw (v.0, v.1, n, e) refl

  -- One recipient's turn, by the result of the statement.
  pub turno :
      (u : Uuid) (us : List Uuid) (res : Resultado) (db : Avisos)
      (r : Result (Notificacion × Avisos))
      → insert_notificacion env u tipo titulo cuerpo recurso_type recurso db ≡ r
      → avisar env tipo titulo cuerpo recurso_type recurso (u ∷ us) res db ≡ elim r [
        | ok (row, db') ↦
            avisar env tipo titulo cuerpo recurso_type recurso us (sumar_creada res) db'
        | err e ↦
            let siguen =
              avisar env tipo titulo cuerpo recurso_type recurso us (sumar_omitida res) db in
            if sin_filas e then siguen else err e
      ]
  unfolding avisar
  turno u us res db r h =
      ap
        (λ x. elim x [
          | ok (row, db') ↦
              avisar env tipo titulo cuerpo recurso_type recurso us (sumar_creada res) db'
          | err e ↦
              let siguen =
                avisar env tipo titulo cuerpo recurso_type recurso us (sumar_omitida res) db in
              if sin_filas e then siguen else err e
        ])
        h

  -- A fan-out over recipients that all have their notice changes nothing.
  pub avisar_de_nuevo :
      (us : List Uuid) (res : Resultado) (db : Avisos)
      → All (Avisado db) us
      → All (Permitido db) us
      → avisar env tipo titulo cuerpo recurso_type recurso us res db
        ≡ ok (record res { omitidas = res.omitidas + length us }, db)
  unfolding avisar sumar_omitida
  avisar_de_nuevo [] res db h p = ap (λ n. ok (record res { omitidas = n }, db)) (omega arith)
  avisar_de_nuevo (u ∷ us) res db h p =
      turno u us res db (err no_rows) (repetido u db p.0 h.0)
      ∙ (avisar_de_nuevo us (sumar_omitida res) db h.1 p.1
          ∙ ap (λ n. ok (record res { omitidas = n }, db)) (omega arith))

  nuevo-mismo :
      (u : Uuid) (db : Avisos)
      → mismo_aviso u tipo recurso db (nuevo_aviso env u tipo titulo cuerpo recurso_type recurso db)
        ≡ true
  unfolding nuevo_aviso
  nuevo-mismo u db = ground (arith, text_eq_refl tipo)

  permitidos_igual :
      (us : List Uuid) (db : Avisos) (ns : List Notificacion) (g : ℕ)
      → All (Permitido (record db { notificaciones = ns; generated = g })) us
      → All (Permitido db) us
  unfolding visible_para
  permitidos_igual [] db ns g h = h
  permitidos_igual (u ∷ us) db ns g h = (h.0, permitidos_igual us db ns g h.1)

  nada :
      (res : Resultado) (db : Avisos) (res' : Resultado) (db' : Avisos)
      → res ≡ res'
      → db ≡ db'
      → Hecho [] res db res' db'
  nada res db res' db' e e' = record {
    extra = [];
    generados = db.generated;
    tablas =
        sym e' ∙ ap (λ ns. record db { notificaciones = ns }) (sym (append_nil db.notificaciones));
    avisados = tt;
    permitidos = tt;
    destinatarios_igual = ap (λ r. r.destinatarios) (sym e);
    creadas_extra = ap (λ r. r.creadas) (sym e) ∙ omega arith;
    cuenta = ap (λ r. r.creadas + r.omitidas) (sym e) ∙ omega arith;
  }

  -- What one more recipient adds.
  paso_creado :
      (u : Uuid) (us : List Uuid) (res : Resultado) (db : Avisos) (res' : Resultado) (db' : Avisos)
      → Permitido db u
      → let row = nuevo_aviso env u tipo titulo cuerpo recurso_type recurso db in
        Hecho us (sumar_creada res) (con_avisos (row ∷ []) (db.generated + 1) db) res' db'
        → Hecho (u ∷ us) res db res' db'
  unfolding sumar_creada
  paso_creado u us res db res' db' v h =
      let row = nuevo_aviso env u tipo titulo cuerpo recurso_type recurso db in
      record {
        extra = row ∷ h.extra;
        generados = h.generados;
        tablas =
            h.tablas
            ∙ ap (λ ns. record db { notificaciones = ns; generated = h.generados })
                (append_assoc db.notificaciones (row ∷ []) h.extra);
        avisados = (
          subst (λ d. Avisado d u) (sym h.tablas)
              (any_row-append (mismo_aviso u tipo recurso db) (db.notificaciones ++ row ∷ [])
                h.extra
                (any_row-last (mismo_aviso u tipo recurso db) db.notificaciones row
                  (nuevo-mismo u db))),
          h.avisados,
        );
        permitidos = (v, permitidos_igual us db _ _ h.permitidos);
        destinatarios_igual = h.destinatarios_igual;
        creadas_extra = omega (arith, h.creadas_extra);
        cuenta = omega (arith, h.cuenta);
      }

  paso_omitido :
      (u : Uuid) (us : List Uuid) (res : Resultado) (db : Avisos) (res' : Resultado) (db' : Avisos)
      → Permitido db u
      → Avisado db u
      → Hecho us (sumar_omitida res) db res' db'
      → Hecho (u ∷ us) res db res' db'
  unfolding sumar_omitida
  paso_omitido u us res db res' db' v n h = record {
    extra = h.extra;
    generados = h.generados;
    tablas = h.tablas;
    avisados = (
      subst (λ d. Avisado d u) (sym h.tablas)
          (any_row-append (mismo_aviso u tipo recurso db) db.notificaciones h.extra n),
      h.avisados,
    );
    permitidos = (v, h.permitidos);
    destinatarios_igual = h.destinatarios_igual;
    creadas_extra = h.creadas_extra;
    cuenta = omega (arith, h.cuenta);
  }

  pub avisar-Hecho :
      (us : List Uuid) (res : Resultado) (db : Avisos) (res' : Resultado) (db' : Avisos)
      → avisar env tipo titulo cuerpo recurso_type recurso us res db ≡ ok (res', db')
      → Hecho us res db res' db'
  unfolding avisar
  avisar-Hecho [] res db res' db' h =
      let igual : res ≡ res' = ap (λ r. r.0) (ok_inj h) in
      let tablas' : db ≡ db' = ap (λ r. r.1) (ok_inj h) in nada res db res' db' igual tablas'
  avisar-Hecho (u ∷ us) res db res' db' h = elim (Bool-cases (visible_para u db)) [
    | inr ajena ↦ cc (turno u us res db (err rls_violation) (prohibido u db ajena), h)
    | inl visto ↦ elim (Bool-cases (tipo_fits tipo)) [
      | inr otro ↦ cc (turno u us res db (err check_violation) (de_otro_tipo u db visto otro), h)
      | inl de_aviso ↦
          let v : Permitido db u = (visto, de_aviso) in
          elim (Bool-cases (any_row (mismo_aviso u tipo recurso db) db.notificaciones)) [
            | inl n ↦ paso_omitido u us res db res' db' v n (
                avisar-Hecho us (sumar_omitida res) db res' db'
                  (sym (turno u us res db (err no_rows) (repetido u db v n)) ∙ h))
            | inr n ↦ elim (Bool-cases (user_hay u db)) [
              | inr falta ↦
                  cc (turno u us res db (err foreign_key_violation) (sin_usuario u db v n falta), h)
              | inl existe ↦
                  let row = nuevo_aviso env u tipo titulo cuerpo recurso_type recurso db in
                  let db₁ = con_avisos (row ∷ []) (db.generated + 1) db in
                  paso_creado u us res db res' db' v (
                    avisar-Hecho us (sumar_creada res) db₁ res' db'
                      (sym (turno u us res db (ok (row, db₁)) (insertado u db v n existe)) ∙ h))
            ]
          ]
    ]
  ]
