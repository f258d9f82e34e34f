-- ===== src/Identity/Sesiones/Conserva.antt =====
-- A refresh token that was revoked stays revoked, whatever is called.
use mathlib.Core.Path.{subst}
use consorcioabierto.Prelude.{
  ℕ, ◌+◌, Bool, ◌&&◌, Option, none, some, List, [], ◌∷◌, ◌++◌, ◌≡◌, refl, sym, ◌∙◌, inl, inr,
  Bool-cases, any_row, update_rows, ◌==◌,
}
use consorcioabierto.Prelude.Rows.{find_row-append, find_row-updated}
use consorcioabierto.Prelude.Text.{Text, text_eq}
use consorcioabierto.Action.{Result, ok, err}
use consorcioabierto.Env.{Uuid, Env}
use consorcioabierto.Identity.Op.{Op, Keeps, >>=-Keeps, pure-Keeps}
use consorcioabierto.Identity.Tablas.{RefreshToken, AuthDb, Estado}
use consorcioabierto.Identity.Consultas.{
  set_user, lookup_refresh_token, revoked, token_de, revoke_refresh_token, vivo_de_familia,
  revoke_tokens_by_family, revoke_session, update_mfa_secret, enable_mfa, disable_mfa,
  record_login_attempt, insert_session, insert_refresh_token, nuevo_token, es_usuario,
}
use consorcioabierto.Identity.Membresias.{en_db, en_tx, terminar, por_cada}

-- The token with a hash is there and was revoked.
abbrev pub Revocado : Text → AuthDb → Type 0
Revocado hash db =
    (t : RefreshToken) × (n : ℕ) × (lookup_refresh_token hash db ≡ some t) × (t.revoked_at ≡ some n)

module _ (hash : Text) where
  abbrev P : AuthDb → Type 0
  P = Revocado hash

  -- The property of the tables, of the whole state.
  abbrev pub Q : Estado → Type 0
  Q s = Revocado hash s.db

  revocar_mas :
      (q : RefreshToken → Bool) (at : ℕ) (db : AuthDb)
      → P db
      → P (record db { refresh_tokens = update_rows q (revoked at) db.refresh_tokens })
  unfolding lookup_refresh_token revoked
  revocar_mas q at db (t, n, found, rev) = elim (Bool-cases (q t)) [
    | inl toca ↦ (
      revoked at t,
      at,
      find_row-updated (λ x. text_eq x.token_hash hash) q (revoked at) db.refresh_tokens t found
            (λ y. refl)
          ∙ rw toca refl,
      refl,
    )
    | inr nada ↦ (
      t,
      n,
      find_row-updated (λ x. text_eq x.token_hash hash) q (revoked at) db.refresh_tokens t found
            (λ y. refl)
          ∙ rw nada refl,
      rev,
    )
  ]

  agregar_uno :
      (z : RefreshToken) (db : AuthDb)
      → P db
      → P (record db { refresh_tokens = db.refresh_tokens ++ z ∷ []; generated = db.generated + 1 })
  unfolding lookup_refresh_token
  agregar_uno z db (t, n, found, rev) = (
    t,
    n,
    find_row-append (λ x. text_eq x.token_hash hash) db.refresh_tokens z ∙ rw found refl,
    rev,
  )

  pub set_user-Keeps : (u : Uuid) → Keeps P (set_user u)
  unfolding set_user lookup_refresh_token
  set_user-Keeps u = record { keep = λ db p. p }

  pub revoke_refresh_token-Keeps : (id : Uuid) (at : ℕ) → Keeps P (revoke_refresh_token id at)
  unfolding revoke_refresh_token
  revoke_refresh_token-Keeps id at = record { keep = λ db p. revocar_mas (token_de id db) at db p }

  pub revoke_tokens_by_family-Keeps :
      (family : Uuid) (at : ℕ) → Keeps P (revoke_tokens_by_family family at)
  unfolding revoke_tokens_by_family
  revoke_tokens_by_family-Keeps family at = record {
    keep = λ db p. revocar_mas (vivo_de_familia family db) at db p;
  }

  pub revoke_session-Keeps : (id : Uuid) (at : ℕ) → Keeps P (revoke_session id at)
  unfolding revoke_session lookup_refresh_token
  revoke_session-Keeps id at = record { keep = λ db p. p }

  pub update_mfa_secret-Keeps : (id : Uuid) (s : Text) → Keeps P (update_mfa_secret id s)
  unfolding update_mfa_secret lookup_refresh_token
  update_mfa_secret-Keeps id s = record { keep = λ db p. p }

  pub enable_mfa-Keeps : (id : Uuid) → Keeps P (enable_mfa id)
  unfolding enable_mfa lookup_refresh_token
  enable_mfa-Keeps id = record { keep = λ db p. p }

  pub disable_mfa-Keeps : (id : Uuid) → Keeps P (disable_mfa id)
  unfolding disable_mfa lookup_refresh_token
  disable_mfa-Keeps id = record { keep = λ db p. p }

  pub record_login_attempt-Keeps :
      (now : ℕ) (email ip source : Text) (success : Bool)
      → Keeps P (record_login_attempt now email ip source success)
  unfolding record_login_attempt lookup_refresh_token
  record_login_attempt-Keeps now email ip source success = record { keep = λ db p. p }

  insertada :
      (env : Env) (user m : Uuid) (key : Uuid) (expires : ℕ) (db : AuthDb)
      → P db
      → P ((insert_session env user (some m) key expires db).1)
  unfolding insert_session lookup_refresh_token
  insertada env user m key expires db p = elim (Bool-cases (es_usuario user db)) [
    | inr otro ↦ rw otro p
    | inl suyo ↦
        elim (Bool-cases
          (any_row (λ x. x.id == m) db.memberships && any_row (λ u. u.id == user) db.users)) [
            | inr falta ↦ rw (suyo, falta) p
            | inl hay ↦ rw (suyo, hay) p
          ]
  ]

  pub insert_session-Keeps :
      (env : Env) (user : Uuid) (m : Option Uuid) (key : Uuid) (expires : ℕ)
      → Keeps P (insert_session env user m key expires)
  unfolding insert_session
  insert_session-Keeps env user none key expires = record { keep = λ db p. p }
  insert_session-Keeps env user (some m) key expires = record {
    keep = λ db p. insertada env user m key expires db p;
  }

  insertado :
      (env : Env) (session user : Uuid) (h : Text) (family : Uuid) (expires : ℕ) (db : AuthDb)
      → P db
      → P ((insert_refresh_token env session user h family expires db).1)
  unfolding insert_refresh_token
  insertado env session user h family expires db p = elim (Bool-cases (es_usuario user db)) [
    | inr otro ↦ rw otro p
    | inl suyo ↦ elim (Bool-cases (any_row (λ t. text_eq t.token_hash h) db.refresh_tokens)) [
      | inl repetido ↦ rw (suyo, repetido) p
      | inr nuevo ↦ elim (Bool-cases (any_row (λ s. s.id == session) db.sessions)) [
        | inr falta ↦ rw (suyo, nuevo, falta) p
        | inl hay ↦
            rw (suyo, nuevo, hay)
              (agregar_uno (nuevo_token env session user h family expires db) db p)
      ]
    ]
  ]

  pub insert_refresh_token-Keeps :
      (env : Env) (session user : Uuid) (h : Text) (family : Uuid) (expires : ℕ)
      → Keeps P (insert_refresh_token env session user h family expires)
  insert_refresh_token-Keeps env session user h family expires = record {
    keep = λ db p. insertado env session user h family expires db p;
  }

  -- A statement, a transaction that may be undone, and one that always is.
  pub en_db-Keeps : {A : Type 0} (m : Op AuthDb A) → Keeps P m → Keeps Q (en_db m)
  unfolding en_db
  en_db-Keeps m h = record { keep = λ s p. h.keep s.db p }

  pub terminar-Keeps :
      {A : Type 0} (antes : AuthDb) (r : Result A × Estado)
      → P antes
      → Q r.1
      → Q ((terminar antes r).1)
  unfolding terminar lookup_refresh_token
  terminar-Keeps antes (ok a, s) p q = q
  terminar-Keeps antes (err e, s) p q = p

  pub en_tx-Keeps : {A : Type 0} (m : Op Estado A) → Keeps Q m → Keeps Q (en_tx m)
  unfolding en_tx
  en_tx-Keeps m h = record { keep = λ s p. terminar-Keeps s.db (m s) p (h.keep s p) }

  pub restaura-Keeps :
      {A : Type 0} (m : Op Estado A) → ((s : Estado) → ((m s).1).db ≡ s.db) → Keeps Q m
  restaura-Keeps m h = record { keep = λ s p. subst P (sym (h s)) p }

  pub por_cada-Keeps :
      {A B : Type 0} (f : A → Op Estado B)
      → ((x : A) → Keeps Q (f x))
      → (xs : List A) → Keeps Q (por_cada f xs)
  unfolding por_cada
  por_cada-Keeps {A} {B} f h [] = let vacia : List B = [] in pure-Keeps Q vacia
  por_cada-Keeps f h (x ∷ xs) =
      >>=-Keeps Q (f x) _ (h x)
        (λ y. >>=-Keeps Q (por_cada f xs) _ (por_cada-Keeps f h xs) (λ ys. pure-Keeps Q (y ∷ ys)))
