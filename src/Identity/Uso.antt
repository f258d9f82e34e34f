-- ===== src/Identity/Uso.antt =====
-- A login keeps a revoked token revoked, whether it succeeds or fails.
pub mod Refresco
pub mod Segundo
use consorcioabierto.Prelude.{
  ℕ, ◌+◌, Bool, true, false, Option, none, some, List, [], ◌∷◌, refl, not, leb, ltb, if◌then◌else◌,
}
use consorcioabierto.Prelude.Text.{Text, codes, text_eq, trim_space, to_lower}
use consorcioabierto.Action.{
  Result, ok, err, no_rows, invalid_credentials, user_disabled, too_many_attempts,
  invalid_refresh_token, refresh_token_expired, refresh_token_reused, hash_invalido,
  clave_no_configurada, invalid_mfa_code, invalid_mfa_token, mfa_not_required,
}
use consorcioabierto.Env.{Env}
use consorcioabierto.Identity.Op.{
  Op, Keeps, >>=-Keeps, >>-Keeps, or_fail-Keeps, fail_if-Keeps, lift-Keeps, gets-Keeps, pure-Keeps,
  fail-Keeps, pure, fail, lift, ◌>>=◌, ◌>>◌,
}
use consorcioabierto.Identity.Tablas.{User, RefreshToken, Estado, Config, Claims, Cripto}
use consorcioabierto.Identity.Consultas.{
  set_user, revoke_refresh_token, revoke_session, get_user_by_email, get_user_by_id,
  list_memberships_for_user, lookup_refresh_token, count_recent_login_failures,
}
use consorcioabierto.Identity.Tokens.{Membership, sign_mfa_token}
use consorcioabierto.Identity.Membresias.{en_db, en_tx, en_consulta, pg_uuid, membership_dto}
use consorcioabierto.Identity.Sesiones.{
  LoginResult, intentar, si_no_falla, user_dto, refresh_hash, issue_access_for, crear_sesion,
  access_de_una, open_session, primer_factor, anotar, verificar_password, login, select_tenant,
  refresh_de, refresh, logout_de, logout, membership_de, me, list_memberships,
  permissions_for_claims, rotar, revoke_family,
}
use consorcioabierto.Identity.Sesiones.Conserva.{
  Q, en_db-Keeps, en_tx-Keeps, restaura-Keeps, por_cada-Keeps, set_user-Keeps,
  revoke_refresh_token-Keeps, revoke_session-Keeps, record_login_attempt-Keeps,
  insert_session-Keeps, insert_refresh_token-Keeps, update_mfa_secret-Keeps, enable_mfa-Keeps,
  disable_mfa-Keeps,
}
use consorcioabierto.Identity.Sesiones.Llamadas.{
  membership_dto-Keeps, new_refresh_token-Keeps, new_pg_uuid-Keeps, first_membership-Keeps,
  rotar-Keeps, revoke_family-Keeps,
}
use consorcioabierto.Identity.Mfa.{
  totp_nuevo, setup_mfa, confirm_mfa, disable, mfa_subject, secreto_de, secreto_activo, verify_mfa,
}

module _ (hash : Text) (env : Env) (k : Cripto) (cfg : Config) (ahora : ℕ) where
  abbrev pub R : Estado → Type 0
  R = Q hash

  si_no_falla-R : {A : Type 0} (r : Result A × Estado) → R r.1 → R ((si_no_falla r).1)
  unfolding si_no_falla
  si_no_falla-R (ok a, s) p = p
  si_no_falla-R (err e, s) p = p

  intentar-Keeps : {A : Type 0} (m : Op Estado A) → Keeps R m → Keeps R (intentar m)
  unfolding intentar
  intentar-Keeps m h = record { keep = λ s p. si_no_falla-R (m s) (h.keep s p) }

  issue_access_for-Keeps : (u m : Text) → Keeps R (issue_access_for env k cfg ahora u m)
  unfolding issue_access_for en_consulta
  issue_access_for-Keeps u m = >>=-Keeps R _ _ (lift-Keeps R (pg_uuid env ahora u)) (λ uid.
      >>=-Keeps R _ _ (lift-Keeps R (pg_uuid env ahora m))
        (λ mid. restaura-Keeps hash _ (λ s. refl)))

  crear_sesion-Keeps : (u : User) → Keeps R (crear_sesion env k cfg ahora u)
  unfolding crear_sesion
  crear_sesion-Keeps u = >>-Keeps R _ _ (en_db-Keeps hash _ (set_user-Keeps hash u.id)) (
      >>=-Keeps R _ _ (gets-Keeps R (λ s. list_memberships_for_user u.id s.db)) (λ rows.
        >>=-Keeps R _ _
          (por_cada-Keeps hash (membership_dto env ahora u.id)
            (membership_dto-Keeps hash env k cfg ahora u.id) rows)
          (λ ms. >>=-Keeps R _ _ (first_membership-Keeps hash env k cfg ahora ms) (λ first.
            >>=-Keeps R _ _ (new_pg_uuid-Keeps hash env k cfg ahora) (λ key.
              >>=-Keeps R _ _
                (en_db-Keeps hash _
                  (insert_session-Keeps hash env u.id first key (ahora + cfg.refresh_token_ttl)))
                (λ session. >>=-Keeps R _ _ (new_refresh_token-Keeps hash env k cfg ahora) (λ plain.
                  >>=-Keeps R _ _ (new_pg_uuid-Keeps hash env k cfg ahora) (λ family.
                    >>-Keeps R _ _
                      (en_db-Keeps hash _ (
                        insert_refresh_token-Keeps hash env session u.id
                          (refresh_hash env k cfg ahora plain) family
                          (ahora + cfg.refresh_token_ttl)))
                      (pure-Keeps R (ms, plain))))))))))

  access_de_una-Keeps :
      (u : User) (ms : List Membership) → Keeps R (access_de_una env k cfg ahora u ms)
  unfolding access_de_una
  access_de_una-Keeps u [] = let nada : Option Text = none in pure-Keeps R nada
  access_de_una-Keeps u (m ∷ []) =
      intentar-Keeps _ (issue_access_for-Keeps (env.uuid_string u.id) m.id)
  access_de_una-Keeps u (m ∷ n ∷ ms) = let nada : Option Text = none in pure-Keeps R nada

  pub open_session-Keeps : (u : User) → Keeps R (open_session env k cfg ahora u)
  unfolding open_session
  open_session-Keeps u =
      >>=-Keeps R _ _ (en_tx-Keeps hash _ (crear_sesion-Keeps u))
        (λ (ms, plain). >>=-Keeps R _ _ (access_de_una-Keeps u ms) (λ access. pure-Keeps R _))

  primer_factor-Keeps : (u : User) → Keeps R (primer_factor env k cfg ahora u)
  unfolding primer_factor
  primer_factor-Keeps u = go u.mfa_enabled
    where
      go :
          (b : Bool)
          → Keeps R (
              if b
              then (lift (sign_mfa_token env k cfg ahora (env.uuid_string u.id)) >>= λ token.
                  pure (record {
                    user = user_dto env k cfg ahora u;
                    memberships = [];
                    refresh_token = [];
                    access_token = [];
                    mfa_required = true;
                    mfa_token = token;
                  }))
              else open_session env k cfg ahora u)
      go true =
          >>=-Keeps R _ _ (lift-Keeps R (sign_mfa_token env k cfg ahora (env.uuid_string u.id)))
            (λ token. pure-Keeps R _)
      go false = open_session-Keeps u

  pub anotar-Keeps :
      (email ip source : Text) (b : Bool) → Keeps R (anotar env k cfg ahora email ip source b)
  unfolding anotar
  anotar-Keeps email ip source b =
      en_db-Keeps hash _ (record_login_attempt-Keeps hash ahora email ip source b)

  verificar_password-Keeps :
      (email password ip : Text) (u : User)
      → Keeps R (verificar_password env k cfg ahora email password ip u)
  unfolding verificar_password
  verificar_password-Keeps email password ip u =
      >>-Keeps R _ _ (fail_if-Keeps R (not (text_eq u.status (codes "active"))) user_disabled) (
        >>=-Keeps R _ _
          (or_fail-Keeps R (k.compare_password password u.password_hash) hash_invalido)
          (λ coincide.
            >>-Keeps R _ _ (anotar-Keeps email ip (codes "password") coincide) (go coincide)))
    where
      go :
          (b : Bool)
          → Keeps R (if b then primer_factor env k cfg ahora u else fail invalid_credentials)
      go true = primer_factor-Keeps u
      go false = fail-Keeps R LoginResult invalid_credentials

  pub login-Keeps : (email password ip : Text) → Keeps R (login env k cfg ahora email password ip)
  unfolding login
  login-Keeps email password ip =
      >>=-Keeps R _ _
        (gets-Keeps R (λ s.
          count_recent_login_failures ahora (to_lower (trim_space email)) ip
            cfg.login_attempt_window s.db))
        (λ failures.
          >>-Keeps R _ _ (fail_if-Keeps R (leb cfg.login_max_attempts failures) too_many_attempts) (
            >>=-Keeps R _ _
              (gets-Keeps R (λ s. get_user_by_email (to_lower (trim_space email)) s.db)) go))
    where
      go :
          (o : Option User)
          → Keeps {A = LoginResult} R (elim o [
            | none ↦
                anotar env k cfg ahora (to_lower (trim_space email)) ip (codes "password") false
                >> fail invalid_credentials
            | some user ↦
                verificar_password env k cfg ahora (to_lower (trim_space email)) password ip user
          ])
      go none =
          >>-Keeps R _ _ (anotar-Keeps (to_lower (trim_space email)) ip (codes "password") false)
            (fail-Keeps R LoginResult invalid_credentials)
      go (some user) = verificar_password-Keeps (to_lower (trim_space email)) password ip user
