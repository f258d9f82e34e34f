-- ===== src/Reclamos/Aplicar.antt =====
-- The two statements that record a transition of a claim, run on the tables.
use consorcioabierto.Prelude.{
  ap, ◌+◌, Bool, true, false, Option, none, some, List, [], ◌∷◌, ◌++◌, ◌≡◌, refl, sym, ◌∙◌, inl,
  inr, Bool-cases, any_row, find_row, update_rows,
}
use consorcioabierto.Prelude.Text.{Text}
use consorcioabierto.Action.{ok_inj, ok, err, bind_after, bind_fails, foreign_key_violation}
use consorcioabierto.Env.{Uuid, Env}
use consorcioabierto.Reclamos.Maquina.{EstadoReclamo}
use consorcioabierto.Reclamos.Tablas.{Reclamo, ReclamoTransicion, Tablas}
use consorcioabierto.Reclamos.Consultas.{
  same_reclamo, get_reclamo, user_existe, con_responsable, update_reclamo_estado, accion_valida,
  nueva_transicion, insert_reclamo_transicion,
}
use consorcioabierto.Reclamos.Servicio.{ReclamoDto, to_reclamo, aplicar, valid_if_not_empty}

-- The tables with one more row of history, and then with the claim in its next state.
abbrev pub con_historia : ReclamoTransicion → Tablas → Tablas
con_historia h t = record t {
  reclamo_transiciones = t.reclamo_transiciones ++ h ∷ [];
  generated = t.generated + 1;
}

abbrev pub con_estado : Uuid → EstadoReclamo → Option Uuid → Tablas → Tablas
con_estado id hasta responsable t = record t {
  reclamos = update_rows (same_reclamo id t) (con_responsable hasta responsable t) t.reclamos;
}

abbrev pub trans_de :
    Env
    → Uuid
    → Text
    → Text
    → Option Uuid
    → EstadoReclamo
    → EstadoReclamo
    → Tablas
    → ReclamoTransicion
trans_de env id accion motivo responsable desde hasta t =
    nueva_transicion env id accion (valid_if_not_empty motivo) desde hasta responsable t

abbrev pub tras :
    Env → Uuid → Text → Text → Option Uuid → EstadoReclamo → EstadoReclamo → Tablas → Tablas
tras env id accion motivo responsable desde hasta t =
    con_estado id hasta responsable
      (con_historia (trans_de env id accion motivo responsable desde hasta t) t)

find_row-any :
    {A : Type 0} (p : A → Bool) (xs : List A) (x : A) → find_row p xs ≡ some x → any_row p xs ≡ true
unfolding find_row any_row
find_row-any p [] x h = cc
find_row-any p (y ∷ ys) x h = elim (Bool-cases (p y)) [
  | inl fits ↦ rw fits refl
  | inr other ↦ rw other (find_row-any p ys x (rw other at h))
]

user_existe-historia :
    (r : Option Uuid) (h : ReclamoTransicion) (t : Tablas)
    → user_existe r (con_historia h t) ≡ user_existe r t
unfolding user_existe
user_existe-historia none h t = refl
user_existe-historia (some u) h t = refl

module _ (env : Env) (id : Uuid) (accion motivo : Text) (responsable : Option Uuid)
    (desde hasta : EstadoReclamo) (t : Tablas) (row : Reclamo)
    (found : get_reclamo id t ≡ some row) where
  insertada :
      accion_valida accion ≡ true
      → user_existe responsable t ≡ true
      → let h = trans_de env id accion motivo responsable desde hasta t in
        insert_reclamo_transicion env id accion
          (valid_if_not_empty motivo)
          desde
          hasta
          responsable
          t
        ≡ ok (h, con_historia h t)
  unfolding insert_reclamo_transicion get_reclamo
  insertada valida usuario =
      let existe = find_row-any (same_reclamo id t) t.reclamos row found in
      rw (valida, existe, usuario) refl

  actualizada :
      user_existe responsable t ≡ true
      → (h : ReclamoTransicion)
      → update_reclamo_estado id hasta responsable (con_historia h t)
        ≡ ok (
          con_responsable hasta responsable t row,
          con_estado id hasta responsable (con_historia h t),
        )
  unfolding update_reclamo_estado get_reclamo con_responsable
  actualizada usuario h = rw (user_existe-historia responsable h t ∙ usuario, found) refl

  -- Where the person in charge exists, both are done.
  pub aplicar-exacta :
      accion_valida accion ≡ true
      → user_existe responsable t ≡ true
      → aplicar env id accion motivo responsable desde hasta t
        ≡ ok (
          to_reclamo env (con_responsable hasta responsable t row),
          tras env id accion motivo responsable desde hasta t,
        )
  unfolding aplicar
  aplicar-exacta valida usuario =
      let h = trans_de env id accion motivo responsable desde hasta t in
      bind_after
        (insert_reclamo_transicion env id accion (valid_if_not_empty motivo) desde hasta
          responsable)
        _ t h (con_historia h t) (insertada valida usuario)
      ∙ bind_after (update_reclamo_estado id hasta responsable) _ (con_historia h t)
          (con_responsable hasta responsable t row)
          (con_estado id hasta responsable (con_historia h t)) (actualizada usuario h)

  no_insertada :
      user_existe responsable t ≡ false
      → accion_valida accion ≡ true
      → insert_reclamo_transicion env id accion
          (valid_if_not_empty motivo)
          desde
          hasta
          responsable
          t
        ≡ err foreign_key_violation
  unfolding insert_reclamo_transicion get_reclamo
  no_insertada falta valida =
      let existe = find_row-any (same_reclamo id t) t.reclamos row found in
      rw (valida, existe, falta) refl

  sin_usuario :
      user_existe responsable t ≡ false
      → accion_valida accion ≡ true
      → aplicar env id accion motivo responsable desde hasta t ≡ err foreign_key_violation
  unfolding aplicar
  sin_usuario falta valida =
      bind_fails
        (insert_reclamo_transicion env id accion (valid_if_not_empty motivo) desde hasta
          responsable)
        _ t foreign_key_violation (no_insertada falta valida)

  -- What was done where they succeed.
  pub aplicar-ok :
      (r : ReclamoDto) (t' : Tablas)
      → accion_valida accion ≡ true
      → aplicar env id accion motivo responsable desde hasta t ≡ ok (r, t')
      → (user_existe responsable t ≡ true)
        × (r ≡ to_reclamo env (con_responsable hasta responsable t row))
        × (t' ≡ tras env id accion motivo responsable desde hasta t)
  aplicar-ok r t' valida h = elim (Bool-cases (user_existe responsable t)) [
    | inl usuario ↦
        let same = ok_inj (sym h ∙ aplicar-exacta valida usuario) in
        (usuario, ap (λ p. p.0) same, ap (λ p. p.1) same)
    | inr falta ↦ cc (h, sin_usuario falta valida)
  ]
