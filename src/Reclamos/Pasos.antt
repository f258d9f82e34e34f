-- ===== src/Reclamos/Pasos.antt =====
-- The diagram of the states of a claim as a step relation, and the table that decides it.
use consorcioabierto.Prelude.{false, Option, none, some, ◌≡◌, refl, inl, inr, Bool-cases}
use mathlib.Core.Path.{subst}
use consorcioabierto.Prelude.Text.{Text, is_empty}
use consorcioabierto.Action.{Result, ok, ok_inj}
use consorcioabierto.Env.{Uuid}
use consorcioabierto.Reclamos.Maquina.{
  EstadoReclamo, abierto, en_progreso, resuelto, cerrado, Accion, asignar, pasar_en_progreso,
  resolver, cerrar, reabrir, siguiente, reasignar, con_motivo, transiciones, acciones_reasignacion,
}

-- The steps that somebody may take, with the person named for the claim and the reason given.
pub data Paso (responsable : Option Uuid) (motivo : Text)
    : EstadoReclamo → Accion → EstadoReclamo → Type 0 where
  asignar_abierto :
      (u : Uuid) → responsable ≡ some u → Paso responsable motivo abierto asignar abierto
  asignar_en_progreso :
      (u : Uuid) → responsable ≡ some u → Paso responsable motivo en_progreso asignar en_progreso
  empezar : Paso responsable motivo abierto pasar_en_progreso en_progreso
  resolver_abierto : Paso responsable motivo abierto resolver resuelto
  resolver_en_progreso : Paso responsable motivo en_progreso resolver resuelto
  cerrar_abierto : Paso responsable motivo abierto cerrar cerrado
  cerrar_en_progreso : Paso responsable motivo en_progreso cerrar cerrado
  cerrar_resuelto : Paso responsable motivo resuelto cerrar cerrado
  reabrir_resuelto : is_empty motivo ≡ false → Paso responsable motivo resuelto reabrir abierto
  reabrir_cerrado : is_empty motivo ≡ false → Paso responsable motivo cerrado reabrir abierto

motivo_dado :
    (motivo : Text) (hasta e : EstadoReclamo)
    → con_motivo reabrir motivo hasta ≡ ok e
    → (is_empty motivo ≡ false) × (hasta ≡ e)
unfolding con_motivo
motivo_dado motivo hasta e h = elim (Bool-cases (is_empty motivo)) [
  | inl vacio ↦ cc (rw vacio at h)
  | inr dado ↦ (dado, ok_inj (rw dado at h))
]

llega :
    {r : Option Uuid} {m : Text} {desde : EstadoReclamo} {a : Accion} {x hasta : EstadoReclamo}
    → Paso r m desde a x
    → Result.ok x ≡ ok hasta
    → Paso r m desde a hasta
llega {r} {m} {desde} {a} p h = subst (λ y. Paso r m desde a y) (ok_inj h) p

-- What the table accepts is a step.
pub siguiente-Paso :
    (r : Option Uuid) (m : Text) (desde : EstadoReclamo) (a : Accion) (hasta : EstadoReclamo)
    → siguiente desde (some a) r m ≡ ok hasta
    → Paso r m desde a hasta
unfolding siguiente reasignar transiciones acciones_reasignacion con_motivo
siguiente-Paso none m abierto asignar hasta h = cc
siguiente-Paso none m en_progreso asignar hasta h = cc
siguiente-Paso none m resuelto asignar hasta h = cc
siguiente-Paso none m cerrado asignar hasta h = cc
siguiente-Paso (some u) m abierto asignar hasta h = llega (asignar_abierto u refl) h
siguiente-Paso (some u) m en_progreso asignar hasta h = llega (asignar_en_progreso u refl) h
siguiente-Paso (some u) m resuelto asignar hasta h = cc
siguiente-Paso (some u) m cerrado asignar hasta h = cc
siguiente-Paso r m abierto pasar_en_progreso hasta h = llega empezar h
siguiente-Paso r m abierto resolver hasta h = llega resolver_abierto h
siguiente-Paso r m en_progreso resolver hasta h = llega resolver_en_progreso h
siguiente-Paso r m abierto cerrar hasta h = llega cerrar_abierto h
siguiente-Paso r m en_progreso cerrar hasta h = llega cerrar_en_progreso h
siguiente-Paso r m resuelto cerrar hasta h = llega cerrar_resuelto h
siguiente-Paso r m resuelto reabrir hasta h =
    let (dado, e) = motivo_dado m abierto hasta h in
    subst (λ x. Paso r m resuelto reabrir x) e (reabrir_resuelto dado)
siguiente-Paso r m cerrado reabrir hasta h =
    let (dado, e) = motivo_dado m abierto hasta h in
    subst (λ x. Paso r m cerrado reabrir x) e (reabrir_cerrado dado)
siguiente-Paso _ _ _ _ hasta h = cc

-- Every step is accepted.
pub Paso-siguiente :
    (r : Option Uuid) (m : Text) (desde : EstadoReclamo) (a : Accion) (hasta : EstadoReclamo)
    → Paso r m desde a hasta
    → siguiente desde (some a) r m ≡ ok hasta
unfolding siguiente reasignar transiciones acciones_reasignacion con_motivo
Paso-siguiente r m _ _ _ (asignar_abierto u e) = rw e refl
Paso-siguiente r m _ _ _ (asignar_en_progreso u e) = rw e refl
Paso-siguiente r m _ _ _ empezar = refl
Paso-siguiente r m _ _ _ resolver_abierto = refl
Paso-siguiente r m _ _ _ resolver_en_progreso = refl
Paso-siguiente r m _ _ _ cerrar_abierto = refl
Paso-siguiente r m _ _ _ cerrar_en_progreso = refl
Paso-siguiente r m _ _ _ cerrar_resuelto = refl
Paso-siguiente r m _ _ _ (reabrir_resuelto dado) = rw dado refl
Paso-siguiente r m _ _ _ (reabrir_cerrado dado) = rw dado refl
