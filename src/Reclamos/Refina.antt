-- ===== src/Reclamos/Refina.antt =====
-- A transition of a claim follows the diagram, and every step of the diagram can be taken.
use consorcioabierto.Prelude.{true, false, Option, none, some, ◌≡◌, refl, sym, ap, ◌∙◌}
use mathlib.Core.Path.{subst}
use consorcioabierto.Prelude.Text.{Text, trim_space, to_lower}
use consorcioabierto.Action.{
  >>=-eq-ok, lift-ok, ok, lift, lift_after, or_raise_after, ◌>>=◌, no_rows,
}
use consorcioabierto.Env.{Uuid, Env}
use consorcioabierto.Reclamos.Maquina.{EstadoReclamo, Accion, accion_of, siguiente}
use consorcioabierto.Reclamos.Tablas.{Reclamo, Tablas}
use consorcioabierto.Reclamos.Consultas.{get_reclamo, user_existe, con_responsable, accion_valida}
use consorcioabierto.Reclamos.Servicio.{
  ReclamoDto, TransicionInput, to_reclamo, parse_id, optional_uuid, optional_text, responsable_o,
  aplicar, transicionar,
}
use consorcioabierto.Reclamos.Pasos.{Paso, siguiente-Paso, Paso-siguiente}
use consorcioabierto.Reclamos.Aplicar.{tras, aplicar-exacta, aplicar-ok}

-- The action and the reason of a request, as the program reads them.
abbrev pub accion_pedida : TransicionInput → Text
accion_pedida in_ = to_lower (trim_space in_.accion)

abbrev pub motivo_pedido : TransicionInput → Text
motivo_pedido in_ = trim_space (optional_text in_.motivo)

valida_of : (t : Text) (a : Accion) → accion_of t ≡ some a → accion_valida t ≡ true
valida_of t a h = ap (λ o. elim o [ none ↦ false | some x ↦ true ]) h

-- The state and the tables after a request that takes a step to `hasta`.
abbrev pub tras_pedido :
    Env → Uuid → TransicionInput → Option Uuid → Reclamo → EstadoReclamo → Tablas → Tablas
tras_pedido env id in_ responsable row hasta t =
    tras env id (accion_pedida in_) (motivo_pedido in_)
      (responsable_o responsable row.responsable_id) row.estado hasta t

abbrev pub reclamo_tras : Option Uuid → Reclamo → EstadoReclamo → Tablas → Reclamo
reclamo_tras responsable row hasta t =
    con_responsable hasta (responsable_o responsable row.responsable_id) t row

-- What the table accepts has an action, and is a step.
siguiente_pide :
    (r : Option Uuid) (m : Text) (desde : EstadoReclamo) (o : Option Accion) (hasta : EstadoReclamo)
    → siguiente desde o r m ≡ ok hasta
    → (a : Accion) × (o ≡ some a) × Paso r m desde a hasta
unfolding siguiente
siguiente_pide r m desde none hasta h = cc
siguiente_pide r m desde (some a) hasta h = (a, refl, siguiente-Paso r m desde a hasta h)

module _ (env : Env) (reclamo_id : Text) (in_ : TransicionInput) (t : Tablas) (id : Uuid)
    (responsable : Option Uuid) (row : Reclamo) (leido : parse_id env reclamo_id ≡ ok id)
    (nombrado : optional_uuid env in_.responsable_id ≡ ok responsable)
    (found : get_reclamo id t ≡ some row) where
  -- A request that was accepted took a step of the diagram, and the tables record it.
  abbrev pub Aceptado : ReclamoDto → Tablas → Type 0
  Aceptado r t' =
      (a : Accion) × (hasta : EstadoReclamo) × (accion_of (accion_pedida in_) ≡ some a)
      × (user_existe (responsable_o responsable row.responsable_id) t ≡ true)
      × Paso responsable (motivo_pedido in_) row.estado a hasta
      × (r ≡ to_reclamo env (reclamo_tras responsable row hasta t))
      × (t' ≡ tras_pedido env id in_ responsable row hasta t)

  -- The reads come first and change nothing.
  abre :
      transicionar env reclamo_id in_ t
      ≡ (lift (siguiente row.estado (accion_of (accion_pedida in_)) responsable (motivo_pedido in_))
            >>= λ hasta.
                aplicar env id
                  (accion_pedida in_)
                  (motivo_pedido in_)
                  (responsable_o responsable row.responsable_id)
                  row.estado
                  hasta)
          t
  unfolding transicionar
  abre =
      lift_after (parse_id env reclamo_id) _ t id leido
      ∙ (lift_after (optional_uuid env in_.responsable_id) _ t responsable nombrado
          ∙ or_raise_after (get_reclamo id t) no_rows _ t row found)

  -- A step of the diagram that a request names, with the reason it needs, is taken: the call
  -- succeeds and returns the claim in the state the step leads to. It is for a claim that is found,
  -- and where the person in charge, if there is one, is a user. The person named takes charge; where
  -- nobody is named, whoever was in charge stays. One row of history is added.
  pub transicionar-Paso :
      (a : Accion) (hasta : EstadoReclamo)
      → accion_of (accion_pedida in_) ≡ some a
      → user_existe (responsable_o responsable row.responsable_id) t ≡ true
      → Paso responsable (motivo_pedido in_) row.estado a hasta
      → transicionar env reclamo_id in_ t
        ≡ ok (
          to_reclamo env (reclamo_tras responsable row hasta t),
          tras_pedido env id in_ responsable row hasta t,
        )
  transicionar-Paso a hasta es usuario paso =
      abre
      ∙ (lift_after
            (siguiente row.estado (accion_of (accion_pedida in_)) responsable (motivo_pedido in_)) _
            t hasta
            (ap (λ o. siguiente row.estado o responsable (motivo_pedido in_)) es
              ∙ Paso-siguiente responsable (motivo_pedido in_) row.estado a hasta paso)
          ∙ aplicar-exacta env id (accion_pedida in_) (motivo_pedido in_)
              (responsable_o responsable row.responsable_id) row.estado hasta t row found
              (valida_of (accion_pedida in_) a es) usuario)

  -- After the reads, a success is a step that was recorded.
  cierra :
      (hasta : EstadoReclamo) (t₁ t' : Tablas) (r : ReclamoDto)
      → (siguiente row.estado (accion_of (accion_pedida in_)) responsable (motivo_pedido in_)
          ≡ ok hasta)
      → t₁ ≡ t
      → aplicar env id
          (accion_pedida in_)
          (motivo_pedido in_)
          (responsable_o responsable row.responsable_id)
          row.estado
          hasta
          t₁
        ≡ ok (r, t')
      → Aceptado r t'
  cierra hasta t₁ t' r acepta igual h =
      let (a, es, paso) =
        siguiente_pide responsable (motivo_pedido in_) row.estado (accion_of (accion_pedida in_))
          hasta acepta in
      let (usuario, mismo, tablas) =
        aplicar-ok env id (accion_pedida in_) (motivo_pedido in_)
          (responsable_o responsable row.responsable_id) row.estado hasta t row found r t'
          (valida_of (accion_pedida in_) a es)
          (subst
            (λ s.
              aplicar env id (accion_pedida in_) (motivo_pedido in_)
                (responsable_o responsable row.responsable_id) row.estado hasta s
              ≡ ok (r, t'))
            igual h) in
      (a, hasta, es, usuario, paso, mismo, tablas)

  -- A transition that succeeds on a claim that is found took a step of the diagram: the request
  -- names an action, the action leads from the state of the claim to the next one, with a reason
  -- where it reopens and a person in charge where it assigns, and the tables change by that step
  -- and its row of history alone.
  pub transicionar_sigue_pasos :
      (r : ReclamoDto) (t' : Tablas)
      → transicionar env reclamo_id in_ t ≡ ok (r, t')
      → Aceptado r t'
  transicionar_sigue_pasos r t' h =
      let (hasta, t₁, e₁, e₂) =
        >>=-eq-ok
          (lift
            (siguiente row.estado (accion_of (accion_pedida in_)) responsable (motivo_pedido in_)))
          _ t (sym abre ∙ h) in
      let (acepta, igual) =
        lift-ok
          (siguiente row.estado (accion_of (accion_pedida in_)) responsable (motivo_pedido in_)) t
          e₁ in
      cierra hasta t₁ t' r acepta igual e₂
