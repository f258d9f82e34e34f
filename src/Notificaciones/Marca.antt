-- ===== src/Notificaciones/Marca.antt =====
-- What the recipient of notices reads and marks.
use consorcioabierto.Prelude.{
  ℕ, zero, suc, ◌≤◌, Bool, true, false, ◌+◌, ◌&&◌, ◌==◌, count_rows, Option, none, some, List, [],
  ◌∷◌, ◌≡◌, refl, sym, ap, ◌∙◌, ◌⊎◌, inl, inr, Bool-cases, length, map, take, find_row, update_rows,
  arith,
}
use consorcioabierto.Prelude.Int.{ℤ, pos_part}
use consorcioabierto.Prelude.Text.{Text}
use consorcioabierto.Action.{
  ok, err, ok_inj, no_rows, notificacion_not_found, >>=-eq-ok, lift_after,
}
use mathlib.Core.Path.{subst}
use consorcioabierto.Prelude.Rows.{IsKey}
use consorcioabierto.Env.{Uuid, Env}
use consorcioabierto.Notificaciones.Tablas.{Notificacion, Avisos}
use consorcioabierto.Notificaciones.Consultas.{
  propia, count_notificaciones_no_leidas, por_leer, leida, sin_leer, marcar_notificacion_leida,
  list_notificaciones_for_current_user,
}
use consorcioabierto.Notificaciones.Servicio.{
  NotificacionDto, Listado, acotar, to_dto, uuid_to_pg, listar, no_encontrada, marcar, marcar_leida,
}

length-take : {A : Type 0} (n : ℕ) (xs : List A) → length (take n xs) ≤ n
length-take zero xs = omega arith
length-take (suc n) [] = omega arith
length-take (suc n) (x ∷ xs) = omega (arith, length-take n xs)

length-map : {A B : Type 0} (f : A → B) (xs : List A) → length (map f xs) ≡ length xs
length-map f [] = refl
length-map f (x ∷ xs) = ap suc (length-map f xs)

acotar-maximo : (limite : ℤ) → pos_part (acotar limite) ≤ 200
unfolding acotar
acotar-maximo limite = ground arith

lista-corta :
    (solo : Bool) (n : ℕ) (db : Avisos)
    → length (list_notificaciones_for_current_user solo n db) ≤ n
unfolding list_notificaciones_for_current_user
lista-corta solo n db = length-take n _

-- Whatever limit is asked for, also a negative one, a listing has at most 200 notices.
pub listar-acotado :
    (env : Env) (solo : Bool) (limite : ℤ) (db : Avisos) (r : Listado) (db' : Avisos)
    → listar env solo limite db ≡ ok (r, db')
    → length r.avisos ≤ 200
unfolding listar
listar-acotado env solo limite db r db' h =
    let igual = ap (λ x. length x.0.avisos) (ok_inj h) in
    omega (
      arith,
      igual,
      length-map (to_dto env)
          (list_notificaciones_for_current_user solo (pos_part (acotar limite)) db),
      lista-corta solo (pos_part (acotar limite)) db,
      acotar-maximo limite,
    )

-- An update that takes rows out of a count lowers it by the rows updated.
count-gastado :
    {A : Type 0} (p q : A → Bool) (f : A → A) (xs : List A)
    → ((y : A) → p y ≡ true → q y ≡ true)
    → ((y : A) → q (f y) ≡ false)
    → count_rows q xs ≡ count_rows q (update_rows p f xs) + count_rows p xs
unfolding count_rows update_rows
count-gastado p q f [] i g = omega arith
count-gastado p q f (x ∷ xs) i g = elim (Bool-cases (p x)) [
  | inl fits ↦ rw (fits, i x fits, g x) (omega (arith, count-gastado p q f xs i g))
  | inr other ↦ rw (other) (omega (arith, count-gastado p q f xs i g))
]

none_fit :
    {A : Type 0} (p k : A → Bool) (xs : List A)
    → ((y : A) → p y ≡ true → k y ≡ true)
    → count_rows k xs ≡ 0
    → count_rows p xs ≡ 0
unfolding count_rows
none_fit p k [] i h = refl
none_fit p k (x ∷ xs) i h = elim (Bool-cases (p x)) [
  | inl fits ↦ omega (arith, (rw (i x fits) at h))
  | inr other ↦ rw other (omega (arith, none_fit p k xs i (omega (arith, h))))
]

-- A row that is found is counted, and is the only one where a wider test is a key.
count_one :
    {A : Type 0} (p k : A → Bool) (xs : List A) (x : A)
    → IsKey k xs
    → find_row p xs ≡ some x
    → ((y : A) → p y ≡ true → k y ≡ true)
    → count_rows p xs ≡ 1
unfolding find_row count_rows
count_one p k [] x u h i = cc
count_one p k (y ∷ xs) x u h i = elim (Bool-cases (p y)) [
  | inl fits ↦ rw fits (omega (arith, none_fit p k xs i (omega (arith, (rw (i y fits) at u)))))
  | inr other ↦ rw other (omega (arith, count_one p k xs x (omega (arith, u)) (rw other at h) i))
]

por_leer-propia :
    (id : Uuid) (db : Avisos) (n : Notificacion)
    → por_leer id db n ≡ true
    → propia db n && sin_leer n ≡ true
por_leer-propia id db n h = ground (arith, h)

por_leer-suya :
    (id : Uuid) (db : Avisos) (n : Notificacion)
    → por_leer id db n ≡ true
    → propia db n && n.id == id ≡ true
por_leer-suya id db n h = ground (arith, h)

leida-contada :
    (db : Avisos) (t : ℕ) (n : Notificacion) → propia db n && sin_leer (leida t n) ≡ false
unfolding leida sin_leer
leida-contada db t n = ground arith

Option-cases : {A : Type 0} (o : Option A) → (o ≡ none) ⊎ ((a : A) × (o ≡ some a))
Option-cases none = inl refl
Option-cases (some a) = inr (a, refl)

module _ (env : Env) (target : Uuid) where
  abbrev con_leida : Avisos → Avisos
  con_leida db = record db {
    notificaciones = update_rows (por_leer target db) (leida db.now) db.notificaciones;
  }

  ausente_fila :
      (db : Avisos)
      → find_row (por_leer target db) db.notificaciones ≡ none
      → marcar_notificacion_leida target db ≡ err no_rows
  unfolding marcar_notificacion_leida
  ausente_fila db h =
      ap (λ o. elim o [ none ↦ err no_rows | some n ↦ ok (leida db.now n, con_leida db) ]) h

  ausente :
      (db : Avisos)
      → find_row (por_leer target db) db.notificaciones ≡ none
      → marcar env target db ≡ err notificacion_not_found
  unfolding marcar no_encontrada
  ausente db h = ap (no_encontrada env) (ausente_fila db h)

  presente_fila :
      (db : Avisos) (n : Notificacion)
      → find_row (por_leer target db) db.notificaciones ≡ some n
      → marcar_notificacion_leida target db ≡ ok (leida db.now n, con_leida db)
  unfolding marcar_notificacion_leida
  presente_fila db n h =
      ap (λ o. elim o [ none ↦ err no_rows | some m ↦ ok (leida db.now m, con_leida db) ]) h

  presente :
      (db : Avisos) (n : Notificacion)
      → find_row (por_leer target db) db.notificaciones ≡ some n
      → marcar env target db ≡ ok (leida db.now n, con_leida db)
  unfolding marcar no_encontrada
  presente db n h = ap (no_encontrada env) (presente_fila db n h)

  marcar_descuenta :
      (db db' : Avisos) (n : Notificacion)
      → IsKey (λ m. propia db m && m.id == target) db.notificaciones
      → marcar env target db ≡ ok (n, db')
      → count_notificaciones_no_leidas db ≡ count_notificaciones_no_leidas db' + 1
  unfolding count_notificaciones_no_leidas leida
  marcar_descuenta db db' n clave h =
      elim (Option-cases (find_row (por_leer target db) db.notificaciones)) [
        | inl falta ↦ cc (ausente db falta, h)
        | inr (m, esta) ↦
            let igual = ap (λ r. r.1) (ok_inj (sym (presente db m esta) ∙ h)) in
            subst (λ d. count_notificaciones_no_leidas db ≡ count_notificaciones_no_leidas d + 1)
              igual
              (count-gastado (por_leer target db) (λ y. propia db y && sin_leer y) (leida db.now)
                  db.notificaciones (por_leer-propia target db) (leida-contada db db.now)
                ∙ ap (λ k. count_notificaciones_no_leidas (con_leida db) + k)
                    (count_one (por_leer target db) (λ y. propia db y && y.id == target)
                      db.notificaciones m clave esta (por_leer-suya target db)))
      ]

-- A notice that is marked as read, where no two notices of the user have its identifier, lowers the
-- number of unread notices of the user by exactly one.
pub marcar_leida_descuenta :
    (env : Env) (id : Text) (target : Uuid) (db db' : Avisos) (r : NotificacionDto)
    → uuid_to_pg env id ≡ ok target
    → IsKey (λ m. propia db m && m.id == target) db.notificaciones
    → marcar_leida env id db ≡ ok (r, db')
    → count_notificaciones_no_leidas db ≡ count_notificaciones_no_leidas db' + 1
unfolding marcar_leida
marcar_leida_descuenta env id target db db' r leyo clave h =
    let (n, d₂, e₂, h₂) =
      >>=-eq-ok (marcar env target) _ db
        (sym (lift_after (uuid_to_pg env id) _ db target leyo) ∙ h) in
    let igual : d₂ ≡ db' = ap (λ x. x.1) (ok_inj h₂) in
    subst (λ d. count_notificaciones_no_leidas db ≡ count_notificaciones_no_leidas d + 1) igual
      (marcar_descuenta env target db d₂ n clave e₂)
