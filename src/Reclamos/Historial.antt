-- ===== src/Reclamos/Historial.antt =====
-- The history of every claim leads from its creation to its present state.
use mathlib.Core.Path.{subst}
use consorcioabierto.Prelude.{
  ℕ, true, false, ◌&&◌, Option, none, some, List, [], ◌∷◌, ◌++◌, ◌≡◌, refl, sym, ap, ◌∙◌, inl, inr,
  ◌==◌, Bool-cases, select, arith,
}
use consorcioabierto.Prelude.Rows.{find_row-fits, find_row-other, find_row-update, select-append}
use consorcioabierto.Prelude.Text.{Text, is_empty}
use consorcioabierto.Env.{Uuid, Env}
use consorcioabierto.Reclamos.Maquina.{EstadoReclamo, abierto, Accion, accion_of}
use consorcioabierto.Reclamos.Tablas.{Reclamo, ReclamoTransicion, Tablas}
use consorcioabierto.Reclamos.Consultas.{
  same_reclamo, get_reclamo, transicion_of, con_responsable, nueva_transicion,
}
use consorcioabierto.Reclamos.Servicio.{responsable_o, optional_text, valid_if_not_empty}
use consorcioabierto.Reclamos.Pasos.{
  Paso, asignar_abierto, asignar_en_progreso, empezar, resolver_abierto, resolver_en_progreso,
  cerrar_abierto, cerrar_en_progreso, cerrar_resuelto, reabrir_resuelto, reabrir_cerrado,
}
use consorcioabierto.Reclamos.Aplicar.{tras, trans_de}

-- Rows of history that lead from one state to another, each by a step of the diagram.
pub data Camino (desde : EstadoReclamo) : List ReclamoTransicion → EstadoReclamo → Type 0 where
  aqui : Camino desde [] desde
  luego :
      {hs : List ReclamoTransicion} (h : ReclamoTransicion) (a : Accion)
      → Camino desde hs h.from_estado
      → accion_of h.accion ≡ some a
      → Paso h.responsable_id (optional_text h.motivo) h.from_estado a h.to_estado
      → Camino desde (hs ++ h ∷ []) h.to_estado

abbrev pub historia : Uuid → Tablas → List ReclamoTransicion
historia id t = select (transicion_of id t) t.reclamo_transiciones

-- The history of a claim leads from `abierto` to its state, and no history is without a claim.
pub record IsConsistente (t : Tablas) : Type 0 where
  pub completa :
      (id : Uuid) (r : Reclamo)
      → get_reclamo id t ≡ some r
      → Camino abierto (historia id t) r.estado
  pub sin_huerfanas : (id : Uuid) → get_reclamo id t ≡ none → historia id t ≡ []

otro_reclamo :
    (id otro : Uuid) (t : Tablas)
    → (id == otro) ≡ false
    → (y : Reclamo) → same_reclamo id t y ≡ true
    → same_reclamo otro t y ≡ false
otro_reclamo id otro t distintos y h = ground (arith, distintos, h)

pub some_inj : {A : Type 0} {a b : A} → Option.some a ≡ some b → a ≡ b
some_inj e = cc

same_nat : (a b : ℕ) → (a == b) ≡ true → a ≡ b
same_nat a b h = ground (arith, h)

propia : (a b : ℕ) → (a == a) && (b == b) ≡ true
propia a b = ground arith

ajena : (a b c : ℕ) → (b == c) ≡ false → (a == a) && (b == c) ≡ false
ajena a b c h = ground (arith, h)

append_nil : {A : Type 0} (xs : List A) → xs ++ [] ≡ xs
append_nil [] = refl
append_nil (x ∷ xs) = ap (λ ys. x ∷ ys) (append_nil xs)

texto_de : (m : Text) → optional_text (valid_if_not_empty m) ≡ m
unfolding optional_text is_empty
texto_de [] = refl
texto_de (c ∷ m) = refl

-- Whoever was named for a step is in charge after it.
pub Paso-responsable :
    {r : Option Uuid} {m : Text} {desde : EstadoReclamo} {a : Accion} {hasta : EstadoReclamo}
    (actual : Option Uuid)
    → Paso r m desde a hasta
    → Paso (responsable_o r actual) m desde a hasta
unfolding responsable_o
Paso-responsable actual (asignar_abierto u e) = asignar_abierto u (rw e refl)
Paso-responsable actual (asignar_en_progreso u e) = asignar_en_progreso u (rw e refl)
Paso-responsable actual empezar = empezar
Paso-responsable actual resolver_abierto = resolver_abierto
Paso-responsable actual resolver_en_progreso = resolver_en_progreso
Paso-responsable actual cerrar_abierto = cerrar_abierto
Paso-responsable actual cerrar_en_progreso = cerrar_en_progreso
Paso-responsable actual cerrar_resuelto = cerrar_resuelto
Paso-responsable actual (reabrir_resuelto dado) = reabrir_resuelto dado
Paso-responsable actual (reabrir_cerrado dado) = reabrir_cerrado dado

module _ (env : Env) (id : Uuid) (accion motivo : Text) (responsable : Option Uuid)
    (hasta : EstadoReclamo) (t : Tablas) (row : Reclamo) (found : get_reclamo id t ≡ some row) where
  abbrev despues : Tablas
  despues = tras env id accion motivo responsable row.estado hasta t

  abbrev nueva : ReclamoTransicion
  nueva = trans_de env id accion motivo responsable row.estado hasta t

  -- The claim is found in its next state.
  pub get-tras : get_reclamo id despues ≡ some (con_responsable hasta responsable t row)
  unfolding get_reclamo con_responsable
  get-tras =
      find_row-update (same_reclamo id t) (same_reclamo id t) (con_responsable hasta responsable t)
        t.reclamos row found (find_row-fits (same_reclamo id t) t.reclamos row found) (λ y. refl)

  -- The other claims are found as they were.
  pub get-otro :
      (otro : Uuid) → (id == otro) ≡ false → get_reclamo otro despues ≡ get_reclamo otro t
  unfolding get_reclamo con_responsable
  get-otro otro distintos =
      find_row-other (same_reclamo otro t) (same_reclamo id t) (con_responsable hasta responsable t)
        t.reclamos (otro_reclamo id otro t distintos) (λ y. refl)

  historia-tras : historia id despues ≡ historia id t ++ nueva ∷ []
  unfolding nueva_transicion
  historia-tras =
      select-append (transicion_of id t) t.reclamo_transiciones nueva
      ∙ rw (propia t.current_tenant id) refl

  historia-otro : (otro : Uuid) → (id == otro) ≡ false → historia otro despues ≡ historia otro t
  unfolding nueva_transicion
  historia-otro otro distintos =
      select-append (transicion_of otro t) t.reclamo_transiciones nueva
      ∙ rw (ajena t.current_tenant id otro distintos) (append_nil (historia otro t))

  -- The claim's own history goes on by the step taken.
  este :
      (a : Accion)
      → accion_of accion ≡ some a
      → Paso responsable motivo row.estado a hasta
      → IsConsistente t
      → (r : Reclamo) → get_reclamo id despues ≡ some r
      → Camino abierto (historia id despues) r.estado
  unfolding nueva_transicion con_responsable
  este a es paso c r e =
      let igual : hasta ≡ r.estado = ap (λ x. x.estado) (some_inj (sym get-tras ∙ e)) in
      let paso' : Paso responsable (optional_text (valid_if_not_empty motivo)) row.estado a hasta =
        subst (λ m. Paso responsable m row.estado a hasta) (sym (texto_de motivo)) paso in
      subst (λ x. Camino abierto (historia id despues) x) igual
        (subst (λ hs. Camino abierto hs hasta) (sym historia-tras)
          (luego nueva a (c.completa id row found) es paso'))

  ninguno : IsConsistente t → get_reclamo id despues ≡ none → historia id despues ≡ []
  ninguno c e = cc (e, get-tras)

  pub tras-IsConsistente :
      (a : Accion)
      → accion_of accion ≡ some a
      → Paso responsable motivo row.estado a hasta
      → IsConsistente t
      → IsConsistente despues
  tras-IsConsistente a es paso c = record {
    completa = λ otro r e. elim (Bool-cases (id == otro)) [
      | inl igual ↦
          subst (λ x. get_reclamo x despues ≡ some r → Camino abierto (historia x despues) r.estado)
            (same_nat id otro igual) (este a es paso c r) e
      | inr distintos ↦
          subst (λ hs. Camino abierto hs r.estado) (sym (historia-otro otro distintos))
            (c.completa otro r (sym (get-otro otro distintos) ∙ e))
    ];
    sin_huerfanas = λ otro e. elim (Bool-cases (id == otro)) [
      | inl igual ↦
          subst (λ x. get_reclamo x despues ≡ none → historia x despues ≡ [])
            (same_nat id otro igual) (ninguno c) e
      | inr distintos ↦
          historia-otro otro distintos ∙ c.sin_huerfanas otro (sym (get-otro otro distintos) ∙ e)
    ];
  }
