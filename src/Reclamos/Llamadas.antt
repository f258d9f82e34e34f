-- ===== src/Reclamos/Llamadas.antt =====
-- Sequences of calls on the claims, and what they keep.
use consorcioabierto.Prelude.{
  ℕ, ◌+◌, true, ◌&&◌, not, Option, none, some, [], ◌∷◌, ◌++◌, ◌≡◌, refl, sym, ap, ◌∙◌, ◌⊎◌, inl,
  inr, ltb, Bool-cases, any_row, length, if◌then◌else◌,
}
use mathlib.Core.Path.{subst}
use consorcioabierto.Prelude.Rows.{find_row-append}
use consorcioabierto.Prelude.Text.{Text, trim_space, is_empty}
use consorcioabierto.Action.{
  lookup-ok, texto_obligatorio, adjunto_inexistente, ok, ok_inj, guard-ok, lift, >>=-eq-ok, lift-ok,
  check_violation, foreign_key_violation, no_rows, categoria_obligatoria, texto_corto,
}
use consorcioabierto.Action.Keeps.{
  Keeps, >>=-Keeps, lift-Keeps, raise_if-Keeps, gets-Keeps, pure-Keeps,
}
use consorcioabierto.Env.{Uuid, Env}
use consorcioabierto.Reclamos.Maquina.{abierto}
use consorcioabierto.Reclamos.Tablas.{Reclamo, Tablas}
use consorcioabierto.Reclamos.Consultas.{
  existe, same_reclamo, get_reclamo, create_reclamo, insert_reclamo_mensaje,
}
use consorcioabierto.Reclamos.Servicio.{
  ReclamoDto, MensajeDto, CreateInput, MensajeInput, TransicionInput, to_reclamo, to_mensaje,
  parse_id, optional_uuid, responsable_o, create, add_mensaje, transicionar, adjunto_ausente,
}
use consorcioabierto.Reclamos.Historial.{
  some_inj, IsConsistente, Camino, aqui, historia, Paso-responsable, tras-IsConsistente,
}
use consorcioabierto.Reclamos.Refina.{accion_pedida, motivo_pedido, transicionar_sigue_pasos}

Option-cases : {A : Type 0} (o : Option A) → (o ≡ none) ⊎ ((a : A) × (o ≡ some a))
Option-cases none = inl refl
Option-cases (some a) = inr (a, refl)

abbrev con_reclamo : Reclamo → Tablas → Tablas
con_reclamo row t = record t { reclamos = t.reclamos ++ row ∷ []; generated = t.generated + 1 }

-- A claim that is new is open and has no history.
module _ (t : Tablas) (row : Reclamo) (recien : row.estado ≡ abierto) (c : IsConsistente t) where
  get-nuevo :
      (id : Uuid)
      → get_reclamo id (con_reclamo row t) ≡ elim (get_reclamo id t) [
        | none ↦ (if same_reclamo id t row then some row else none)
        | some r ↦ some r
      ]
  unfolding get_reclamo
  get-nuevo id = find_row-append (same_reclamo id t) t.reclamos row

  sin_historia :
      (id : Uuid) (r : Reclamo)
      → get_reclamo id t ≡ none
      → (if same_reclamo id t row then some row else none) ≡ some r
      → Camino abierto (historia id t) r.estado
  sin_historia id r falta h = elim (Bool-cases (same_reclamo id t row)) [
    | inl propio ↦
        let igual : row ≡ r = some_inj (rw propio at h) in
        subst (λ hs. Camino abierto hs r.estado) (sym (c.sin_huerfanas id falta))
          (subst (λ x. Camino abierto [] x) (sym recien ∙ ap (λ x. x.estado) igual) aqui)
    | inr ajeno ↦ cc (rw ajeno at h)
  ]

  nuevo : IsConsistente (con_reclamo row t)
  nuevo = record {
    completa = λ id r e. elim (Option-cases (get_reclamo id t)) [
      | inl falta ↦ sin_historia id r falta (rw (get-nuevo id, falta) at e)
      | inr (r', esta) ↦ c.completa id r (esta ∙ (rw (get-nuevo id, esta) at e))
    ];
    sin_huerfanas = λ id e. elim (Option-cases (get_reclamo id t)) [
      | inl falta ↦ c.sin_huerfanas id falta
      | inr (r', esta) ↦ cc (rw (get-nuevo id, esta) at e)
    ];
  }

module _ (env : Env) where
  create_reclamo-IsConsistente :
      (consorcio unidad : Uuid) (categoria texto : Text) (sla : Option ℕ)
      → Keeps IsConsistente (create_reclamo env consorcio unidad categoria texto sla)
  unfolding create_reclamo get_reclamo
  create_reclamo-IsConsistente consorcio unidad categoria texto sla t row t' h c =
      let (a, h₁) = guard-ok (is_empty texto) check_violation _ h in
      let (b, h₂) =
        guard-ok (not (existe consorcio t t.consorcios && existe unidad t t.unidades))
          foreign_key_violation _ h₁ in
      subst IsConsistente (ap (λ r. r.1) (ok_inj h₂)) (nuevo t _ refl c)

  insert_reclamo_mensaje-IsConsistente :
      (reclamo : Uuid) (texto : Text) (adjunto : Option Uuid)
      → Keeps IsConsistente (insert_reclamo_mensaje env reclamo texto adjunto)
  unfolding insert_reclamo_mensaje get_reclamo
  insert_reclamo_mensaje-IsConsistente reclamo texto adjunto t row t' h c =
      let (a, h₁) = guard-ok (is_empty texto) check_violation _ h in
      let (b, h₂) =
        guard-ok
          (not (
            any_row (same_reclamo reclamo t) t.reclamos
            && elim adjunto [ none ↦ true | some d ↦ existe d t t.documentos ]))
          foreign_key_violation _ h₁ in
      subst IsConsistente (ap (λ r. r.1) (ok_inj h₂)) (record {
        completa = λ id r e. c.completa id r e;
        sin_huerfanas = λ id e. c.sin_huerfanas id e;
      })

  create-IsConsistente :
      (ahora : ℕ) (consorcio_id : Text) (in_ : CreateInput)
      → Keeps IsConsistente (create env ahora consorcio_id in_)
  unfolding create
  create-IsConsistente ahora consorcio_id in_ =
      let P = IsConsistente in
      >>=-Keeps P _ _ (raise_if-Keeps P (is_empty (trim_space in_.categoria)) categoria_obligatoria)
        (λ _.
          >>=-Keeps P _ _ (raise_if-Keeps P (ltb (length (trim_space in_.texto)) 3) texto_corto)
            (λ _. >>=-Keeps P _ _ (lift-Keeps P (parse_id env consorcio_id)) (λ consorcio.
              >>=-Keeps P _ _ (lift-Keeps P (parse_id env (trim_space in_.unidad_id))) (λ unidad.
                >>=-Keeps P _ _ (create_reclamo-IsConsistente consorcio unidad _ _ _)
                  (λ row. pure-Keeps P (to_reclamo env row))))))

  add_mensaje-IsConsistente :
      (reclamo_id : Text) (in_ : MensajeInput)
      → Keeps IsConsistente (add_mensaje env reclamo_id in_)
  unfolding add_mensaje
  add_mensaje-IsConsistente reclamo_id in_ =
      let P = IsConsistente in
      >>=-Keeps P _ _ (raise_if-Keeps P (is_empty (trim_space in_.texto)) texto_obligatorio) (λ _.
        >>=-Keeps P _ _ (lift-Keeps P (parse_id env reclamo_id)) (λ id.
          >>=-Keeps P _ _ (lift-Keeps P (optional_uuid env in_.adjunto_id)) (λ adjunto.
            >>=-Keeps P _ _ (gets-Keeps P (adjunto_ausente env adjunto)) (λ ausente.
              >>=-Keeps P _ _ (raise_if-Keeps P ausente adjunto_inexistente) (λ _.
                >>=-Keeps P _ _
                  (insert_reclamo_mensaje-IsConsistente id (trim_space in_.texto) adjunto)
                  (λ row. pure-Keeps P (to_mensaje env row)))))))

  -- What a transition that succeeded had read.
  leidos :
      (reclamo_id : Text) (in_ : TransicionInput) (t t' : Tablas) (r : ReclamoDto)
      → transicionar env reclamo_id in_ t ≡ ok (r, t')
      → (id : Uuid) × (responsable : Option Uuid) × (row : Reclamo) × (parse_id env reclamo_id
          ≡ ok id)
        × (optional_uuid env in_.responsable_id ≡ ok responsable)
        × (get_reclamo id t ≡ some row)
  unfolding transicionar
  leidos reclamo_id in_ t t' r h =
      let (id, t₁, e₁, h₁) = >>=-eq-ok (lift (parse_id env reclamo_id)) _ t h in
      let (p₁, s₁) = lift-ok (parse_id env reclamo_id) t e₁ in
      let (responsable, t₂, e₂, h₂) =
        >>=-eq-ok (lift (optional_uuid env in_.responsable_id)) _ t₁ h₁ in
      let (p₂, s₂) = lift-ok (optional_uuid env in_.responsable_id) t₁ e₂ in
      let (row, p₃, h₃) = lookup-ok (get_reclamo id) no_rows _ t₂ h₂ in
      (id, responsable, row, p₁, p₂, subst (λ s. get_reclamo id s ≡ some row) (s₂ ∙ s₁) p₃)

  transicionar-IsConsistente :
      (reclamo_id : Text) (in_ : TransicionInput)
      → Keeps IsConsistente (transicionar env reclamo_id in_)
  transicionar-IsConsistente reclamo_id in_ t r t' h c =
      let (id, responsable, row, leido, nombrado, found) = leidos reclamo_id in_ t t' r h in
      let (a, hasta, es, usuario, paso, mismo, tablas) =
        transicionar_sigue_pasos env reclamo_id in_ t id responsable row leido nombrado found r t'
          h in
      subst IsConsistente (sym tablas) (
        tras-IsConsistente env id (accion_pedida in_) (motivo_pedido in_)
          (responsable_o responsable row.responsable_id) hasta t row found a es
          (Paso-responsable row.responsable_id paso) c)

-- A call that succeeded, or the next moment of a session of the same tenant.
pub data Llamada (env : Env) : Tablas → Tablas → Type 0 where
  creado :
      {t t' : Tablas} (ahora : ℕ) (consorcio_id : Text) (in_ : CreateInput) (r : ReclamoDto)
      → create env ahora consorcio_id in_ t ≡ ok (r, t')
      → Llamada env t t'
  respondido :
      {t t' : Tablas} (reclamo_id : Text) (in_ : MensajeInput) (m : MensajeDto)
      → add_mensaje env reclamo_id in_ t ≡ ok (m, t')
      → Llamada env t t'
  pasado :
      {t t' : Tablas} (reclamo_id : Text) (in_ : TransicionInput) (r : ReclamoDto)
      → transicionar env reclamo_id in_ t ≡ ok (r, t')
      → Llamada env t t'
  otra_sesion :
      {t : Tablas} (now : ℕ) (usuario : Option Uuid)
      → Llamada env t (record t { now = now; current_user = usuario })

pub data Llamadas (env : Env) (t₀ : Tablas) : Tablas → Type 0 where
  ninguna : Llamadas env t₀ t₀
  otra : {t t' : Tablas} → Llamadas env t₀ t → Llamada env t t' → Llamadas env t₀ t'

llamada-IsConsistente :
    {env : Env} {t t' : Tablas} → Llamada env t t' → IsConsistente t → IsConsistente t'
unfolding get_reclamo
llamada-IsConsistente {env} (creado ahora consorcio_id in_ r h) c =
    create-IsConsistente env ahora consorcio_id in_ _ r _ h c
llamada-IsConsistente {env} (respondido reclamo_id in_ m h) c =
    add_mensaje-IsConsistente env reclamo_id in_ _ m _ h c
llamada-IsConsistente {env} (pasado reclamo_id in_ r h) c =
    transicionar-IsConsistente env reclamo_id in_ _ r _ h c
llamada-IsConsistente (otra_sesion now usuario) c = record {
  completa = λ id r e. c.completa id r e;
  sin_huerfanas = λ id e. c.sin_huerfanas id e;
}

llamadas-IsConsistente :
    {env : Env} {t₀ t : Tablas} → IsConsistente t₀ → Llamadas env t₀ t → IsConsistente t
llamadas-IsConsistente c ninguna = c
llamadas-IsConsistente c (otra ls l) = llamada-IsConsistente l (llamadas-IsConsistente c ls)

-- After any sequence of calls that succeed, from tables where it was so and no history
-- was without a claim, the history of each claim of the tenant leads from `abierto`
-- to its present state, in the order of the calls and each row by a step of the diagram.
pub historial_explica_estado :
    (env : Env) (t₀ t : Tablas) (id : Uuid) (r : Reclamo)
    → IsConsistente t₀
    → Llamadas env t₀ t
    → get_reclamo id t ≡ some r
    → Camino abierto (historia id t) r.estado
historial_explica_estado env t₀ t id r c ls e = (llamadas-IsConsistente c ls).completa id r e
