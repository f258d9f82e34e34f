-- ===== src/Reclamos/Alcance.antt =====
-- No claim is stuck: from each state every other one is reached in at most two calls.
use consorcioabierto.Prelude.{
  ℕ, suc, ◌≤◌, true, false, Option, none, some, List, [], ◌∷◌, ◌≡◌, refl, sym, ap, ◌∙◌, length,
  arith,
}
use mathlib.Core.Path.{subst}
use consorcioabierto.Prelude.Text.{Text, codes, trim_space, to_lower, is_empty}
use consorcioabierto.Action.{Result, ok, err}
use consorcioabierto.Env.{Uuid, Env}
use consorcioabierto.Reclamos.Maquina.{
  EstadoReclamo, abierto, en_progreso, resuelto, cerrado, Accion, asignar, pasar_en_progreso,
  resolver, cerrar, reabrir, accion_of,
}
use consorcioabierto.Reclamos.Tablas.{Reclamo, Tablas}
use consorcioabierto.Reclamos.Consultas.{get_reclamo, user_existe, con_responsable}
use consorcioabierto.Reclamos.Servicio.{
  ReclamoDto, TransicionInput, parse_id, optional_uuid, optional_text, responsable_o, transicionar,
}
use consorcioabierto.Reclamos.Pasos.{
  Paso, empezar, resolver_abierto, resolver_en_progreso, cerrar_abierto, cerrar_en_progreso,
  cerrar_resuelto, reabrir_resuelto, reabrir_cerrado,
}
use consorcioabierto.Reclamos.Historial.{get-tras}
use consorcioabierto.Reclamos.Refina.{
  accion_pedida, motivo_pedido, transicionar-Paso, tras_pedido, reclamo_tras,
}

-- Requests on one claim, one after the other, each of which has to succeed.
unfoldable pub recorrer : Env → Text → List TransicionInput → Tablas → Result Tablas
unfolding transicionar
recorrer env reclamo_id [] t = ok t
recorrer env reclamo_id (p ∷ ps) t = elim (transicionar env reclamo_id p t) [
  | ok (r, t') ↦ recorrer env reclamo_id ps t'
  | err e ↦ err e
]

abbrev accion_text : Accion → Text
accion_text asignar = codes "asignar"
accion_text pasar_en_progreso = codes "en_progreso"
accion_text resolver = codes "resolver"
accion_text cerrar = codes "cerrar"
accion_text reabrir = codes "reabrir"

-- The request for an action, with a reason and naming nobody.
abbrev pedir : Accion → TransicionInput
pedir a = record { accion = accion_text a; motivo = some (codes "x"); responsable_id = none }

pedir-accion : (a : Accion) → accion_of (accion_pedida (pedir a)) ≡ some a
unfolding accion_of to_lower trim_space
pedir-accion asignar = refl
pedir-accion pasar_en_progreso = refl
pedir-accion resolver = refl
pedir-accion cerrar = refl
pedir-accion reabrir = refl

pedir-motivo : (a : Accion) → is_empty (motivo_pedido (pedir a)) ≡ false
unfolding is_empty trim_space optional_text
pedir-motivo a = refl

-- The claim is found in a state, and whoever is in charge of it is a user.
abbrev pub En : Uuid → EstadoReclamo → Tablas → Type 0
En id e t =
    (r : Reclamo) × (get_reclamo id t ≡ some r)
    × (user_existe r.responsable_id t ≡ true)
    × (r.estado ≡ e)

-- Requests of at most `n` that lead there.
abbrev pub Llega : Env → Text → Uuid → ℕ → EstadoReclamo → Tablas → Type 0
Llega env reclamo_id id n hasta t =
    (ps : List TransicionInput) × (t' : Tablas) × (length ps ≤ n)
    × (recorrer env reclamo_id ps t ≡ ok t')
    × En id hasta t'

usuario_tras :
    (env : Env) (id : Uuid) (p : TransicionInput) (row : Reclamo) (hasta : EstadoReclamo)
    (t : Tablas)
    → user_existe row.responsable_id t ≡ true
    → user_existe
        (reclamo_tras none row hasta t).responsable_id
        (tras_pedido env id p none row hasta t)
      ≡ true
unfolding user_existe con_responsable responsable_o
usuario_tras env id p row hasta t h = go row.responsable_id h
  where
    go :
        (o : Option Uuid)
        → user_existe o t ≡ true
        → user_existe o (tras_pedido env id p none row hasta t) ≡ true
    go none h = refl
    go (some u) h = h

module _ (env : Env) (reclamo_id : Text) (id : Uuid) (leido : parse_id env reclamo_id ≡ ok id) where
  quieto : (n : ℕ) (e : EstadoReclamo) (t : Tablas) → En id e t → Llega env reclamo_id id n e t
  unfolding recorrer
  quieto n e t en = ([], t, omega arith, refl, en)

  recorrer-paso :
      (p : TransicionInput) (ps : List TransicionInput) (t t₁ : Tablas) (r : ReclamoDto)
      → transicionar env reclamo_id p t ≡ ok (r, t₁)
      → recorrer env reclamo_id (p ∷ ps) t ≡ recorrer env reclamo_id ps t₁
  unfolding recorrer
  recorrer-paso p ps t t₁ r h =
      ap (λ x. elim x [ ok (r, t') ↦ recorrer env reclamo_id ps t' | err e ↦ err e ]) h

  -- One step, and from there the rest.
  paso :
      (n : ℕ) (a : Accion) (desde medio hasta : EstadoReclamo) (t : Tablas)
      → En id desde t
      → Paso none (motivo_pedido (pedir a)) desde a medio
      → ((t' : Tablas) → En id medio t' → Llega env reclamo_id id n hasta t')
      → Llega env reclamo_id id (suc n) hasta t
  unfolding recorrer optional_uuid con_responsable responsable_o
  paso n a desde medio hasta t (r, found, usuario, es) st resto =
      let t₁ = tras_pedido env id (pedir a) none r medio t in
      let (ps, t', corto, corre, en) = resto t₁ (
        reclamo_tras none r medio t,
        get-tras env id (accion_pedida (pedir a)) (motivo_pedido (pedir a))
            (responsable_o none r.responsable_id) medio t r found,
        usuario_tras env id (pedir a) r medio t usuario,
        refl,
      ) in
      (
        pedir a ∷ ps,
        t',
        omega (arith, corto),
        recorrer-paso (pedir a) ps t t₁ _ (
              transicionar-Paso env reclamo_id (pedir a) t id none r leido refl found a medio
                (pedir-accion a) usuario
                (subst (λ e. Paso none (motivo_pedido (pedir a)) e a medio) (sym es) st))
            ∙ corre,
        en,
      )

  -- Whatever its state, a claim that is found, and whose person in charge is a user or nobody,
  -- reaches any given state by at most two requests that all succeed.
  pub todo_estado_se_alcanza :
      (desde hasta : EstadoReclamo) (t : Tablas) → En id desde t → Llega env reclamo_id id 2 hasta t
  todo_estado_se_alcanza abierto abierto t en = quieto 2 abierto t en
  todo_estado_se_alcanza abierto en_progreso t en =
      paso 1 pasar_en_progreso abierto en_progreso en_progreso t en empezar (quieto 1 en_progreso)
  todo_estado_se_alcanza abierto resuelto t en =
      paso 1 resolver abierto resuelto resuelto t en resolver_abierto (quieto 1 resuelto)
  todo_estado_se_alcanza abierto cerrado t en =
      paso 1 cerrar abierto cerrado cerrado t en cerrar_abierto (quieto 1 cerrado)
  todo_estado_se_alcanza en_progreso en_progreso t en = quieto 2 en_progreso t en
  todo_estado_se_alcanza en_progreso abierto t en =
      paso 1 resolver en_progreso resuelto abierto t en resolver_en_progreso (λ t' en'.
        paso 0 reabrir resuelto abierto abierto t' en' (reabrir_resuelto (pedir-motivo reabrir))
          (quieto 0 abierto))
  todo_estado_se_alcanza en_progreso resuelto t en =
      paso 1 resolver en_progreso resuelto resuelto t en resolver_en_progreso (quieto 1 resuelto)
  todo_estado_se_alcanza en_progreso cerrado t en =
      paso 1 cerrar en_progreso cerrado cerrado t en cerrar_en_progreso (quieto 1 cerrado)
  todo_estado_se_alcanza resuelto resuelto t en = quieto 2 resuelto t en
  todo_estado_se_alcanza resuelto abierto t en =
      paso 1 reabrir resuelto abierto abierto t en (reabrir_resuelto (pedir-motivo reabrir))
        (quieto 1 abierto)
  todo_estado_se_alcanza resuelto en_progreso t en =
      paso 1 reabrir resuelto abierto en_progreso t en (reabrir_resuelto (pedir-motivo reabrir))
        (λ t' en'.
          paso 0 pasar_en_progreso abierto en_progreso en_progreso t' en' empezar
            (quieto 0 en_progreso))
  todo_estado_se_alcanza resuelto cerrado t en =
      paso 1 cerrar resuelto cerrado cerrado t en cerrar_resuelto (quieto 1 cerrado)
  todo_estado_se_alcanza cerrado cerrado t en = quieto 2 cerrado t en
  todo_estado_se_alcanza cerrado abierto t en =
      paso 1 reabrir cerrado abierto abierto t en (reabrir_cerrado (pedir-motivo reabrir))
        (quieto 1 abierto)
  todo_estado_se_alcanza cerrado en_progreso t en =
      paso 1 reabrir cerrado abierto en_progreso t en (reabrir_cerrado (pedir-motivo reabrir))
        (λ t' en'.
          paso 0 pasar_en_progreso abierto en_progreso en_progreso t' en' empezar
            (quieto 0 en_progreso))
  todo_estado_se_alcanza cerrado resuelto t en =
      paso 1 reabrir cerrado abierto resuelto t en (reabrir_cerrado (pedir-motivo reabrir))
        (λ t' en'.
          paso 0 resolver abierto resuelto resuelto t' en' resolver_abierto (quieto 0 resuelto))
