-- ===== src/Cobranzas/Acreditacion/Estados.antt =====
-- About `AcreditarCobranza` of internal/cobranzas/acreditacion.go, and a second call of it.
use mathlib.Core.Path.{subst}
use consorcioabierto.Prelude.{
  Bool, true, none, [], ◌∷◌, refl, sym, ap, ◌∙◌, inl, inr, Bool-cases, find_row, update_rows, ◌≡◌,
  some, List,
}
use consorcioabierto.Prelude.Text.{Text}
use consorcioabierto.Action.{
  ok, ok_inj, or_raise, >>=-eq-ok, or_raise-ok, no_rows, cobranza_invalid, cobranza_not_found,
}
use consorcioabierto.Env.{Uuid, Env}
use consorcioabierto.Store.{
  Db, Payment, PaymentEstado, acreditado, pendiente_revision, rechazado, revertido, sin_estado_pago,
  payment_estado_eq,
}
use consorcioabierto.Queries.Payments.{
  same_payment, get_cobranza, update_cobranza_estado, list_payment_allocations_by_payment,
}
use consorcioabierto.Cobranzas.Detalle.{AcreditacionDto, detalle_of, saldo_a_favor_from_payment}
use consorcioabierto.Cobranzas.Asignaciones.{AsignacionInput, build_allocations}
use consorcioabierto.Cobranzas.Acreditacion.{acreditar, acreditar_nueva, parse_uuid}

-- A row that is found among rows that were updated by its own test was updated.
find_row-changed :
    {A : Type 0} (P : A → Type 0) (p : A → Bool) (f : A → A) (xs : List A) (u : A)
    → ((y : A) → p (f y) ≡ p y)
    → ((y : A) → P (f y))
    → find_row p (update_rows p f xs) ≡ some u
    → P u
unfolding find_row update_rows
find_row-changed P p f [] u i q h = cc
find_row-changed P p f (x ∷ xs) u i q h = elim (Bool-cases (p x)) [
  | inl es ↦ subst (λ o. elim o [ none ↦ P u | some z ↦ P z ]) (rw (es, i x, es) at h) (q x)
  | inr otra ↦ find_row-changed P p f xs u i q (rw (otra, otra) at h)
]

acreditado_de : (e : PaymentEstado) → payment_estado_eq e acreditado ≡ true → e ≡ acreditado
acreditado_de acreditado h = refl
acreditado_de pendiente_revision h = cc
acreditado_de rechazado h = cc
acreditado_de revertido h = cc
acreditado_de sin_estado_pago h = cc

-- A payment that is stored as credited.
abbrev pub Acreditado : Uuid → Db → Payment → Type 0
Acreditado pid db p = (get_cobranza pid db ≡ some p) × (p.estado ≡ acreditado)

module _ (env : Env) where
  -- A payment that is credited stays as it is.
  ya_acreditado :
      (payment_id created_by : Text) (asignaciones : List AsignacionInput) (db : Db)
      (pid actor : Uuid) (payment : Payment)
      → parse_uuid env payment_id ≡ some pid
      → parse_uuid env created_by ≡ some actor
      → get_cobranza pid db ≡ some payment
      → payment.estado ≡ acreditado
      → let allocs = list_payment_allocations_by_payment pid db in
        acreditar env payment_id created_by asignaciones db
        ≡ ok (detalle_of env payment allocs (saldo_a_favor_from_payment payment allocs), db)
  unfolding acreditar
  ya_acreditado payment_id created_by asignaciones db pid actor payment p a g e = rw (p, a, g, e)

  nueva-Acreditado :
      (payment : Payment) (pid actor : Uuid) (asignaciones : List AsignacionInput) (db db' : Db)
      (r : AcreditacionDto)
      → acreditar_nueva env payment pid actor asignaciones db ≡ ok (r, db')
      → (p : Payment) × Acreditado pid db' p
  unfolding acreditar_nueva update_cobranza_estado get_cobranza
  nueva-Acreditado payment pid actor asignaciones db db' r h =
      let ((allocs, saldo), d₁, e₁, k₁) =
        >>=-eq-ok (build_allocations env payment asignaciones actor) _ db h in
      let d₂ : Db = record d₁ {
        payments =
            update_rows (same_payment pid d₁)
              (λ q. record q { estado = acreditado; motivo_rechazo = none }) d₁.payments;
      } in
      let (p, d₃, e₃, k₃) = >>=-eq-ok (or_raise (get_cobranza pid d₂) no_rows) _ d₂ k₁ in
      let (hallado, i₃) = or_raise-ok (get_cobranza pid d₂) no_rows d₂ e₃ in
      let i₄ : d₃ ≡ db' = ap (λ x. x.1) (ok_inj k₃) in
      (
        p,
        (
          subst (λ d. get_cobranza pid d ≡ some p) (sym i₃ ∙ i₄) hallado,
          find_row-changed (λ q. q.estado ≡ acreditado) (same_payment pid d₁)
              (λ q. record q { estado = acreditado; motivo_rechazo = none }) d₁.payments p
              (λ q. refl) (λ q. refl) hallado,
        ),
      )

  acreditar-Acreditado :
      (payment_id created_by : Text) (asignaciones : List AsignacionInput) (db db' : Db)
      (r : AcreditacionDto)
      → acreditar env payment_id created_by asignaciones db ≡ ok (r, db')
      → (pid : Uuid) × (p : Payment) × (parse_uuid env payment_id ≡ some pid) × Acreditado pid db' p
  unfolding acreditar
  acreditar-Acreditado payment_id created_by asignaciones db db' r h =
      let (pid, d₁, e₁, k₁) =
        >>=-eq-ok (or_raise (parse_uuid env payment_id) cobranza_invalid) _ db h in
      let (actor, d₂, e₂, k₂) =
        >>=-eq-ok (or_raise (parse_uuid env created_by) cobranza_invalid) _ d₁ k₁ in
      let (payment, d₃, e₃, k₃) =
        >>=-eq-ok (or_raise (get_cobranza pid d₂) cobranza_not_found) _ d₂ k₂ in
      let leyo = (or_raise-ok (parse_uuid env payment_id) cobranza_invalid db e₁).0 in
      let (hallado, i₃) = or_raise-ok (get_cobranza pid d₂) cobranza_not_found d₂ e₃ in
      elim (Bool-cases (payment_estado_eq payment.estado acreditado)) [
        | inl ya ↦
            let i₄ : d₃ ≡ db' = ap (λ x. x.1) (ok_inj (rw ya at k₃)) in
            (
              pid,
              payment,
              leyo,
              (
                subst (λ d. get_cobranza pid d ≡ some payment) (sym i₃ ∙ i₄) hallado,
                acreditado_de payment.estado ya,
              ),
            )
        | inr falta ↦
            let (p, queda) =
              nueva-Acreditado payment pid actor asignaciones d₃ db' r (rw falta at k₃) in
            (pid, p, leyo, queda)
      ]

  -- A payment that was credited with success is stored as credited, and a second call that credits it,
  -- by whoever has an identifier that scans and with whatever allocations, succeeds, shows the payment
  -- with the allocations that are stored, and changes nothing.
  pub acreditar_dos_veces :
      (payment_id created_by otro : Text) (asignaciones otras : List AsignacionInput) (db db' : Db)
      (r : AcreditacionDto) (actor : Uuid)
      → parse_uuid env otro ≡ some actor
      → acreditar env payment_id created_by asignaciones db ≡ ok (r, db')
      → (pid : Uuid) × (p : Payment) × Acreditado pid db' p
        × (let allocs = list_payment_allocations_by_payment pid db' in
            acreditar env payment_id otro otras db'
            ≡ ok (detalle_of env p allocs (saldo_a_favor_from_payment p allocs), db'))
  acreditar_dos_veces payment_id created_by otro asignaciones otras db db' r actor a h =
      let (pid, p, leyo, queda) =
        acreditar-Acreditado payment_id created_by asignaciones db db' r h in
      (pid, p, queda, ya_acreditado payment_id otro otras db' pid actor p leyo a queda.0 queda.1)
