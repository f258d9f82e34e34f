-- ===== src/Identity/Uso/Segundo.antt =====
-- The operations on the second factor keep a revoked token revoked.
use consorcioabierto.Prelude.{ℕ, Bool, true, false, not, leb, if◌then◌else◌}
use consorcioabierto.Prelude.Text.{Text, codes, text_eq}
use consorcioabierto.Action.{
  no_rows, user_disabled, too_many_attempts, clave_no_configurada, invalid_mfa_code,
  invalid_mfa_token, mfa_not_required,
}
use consorcioabierto.Env.{Env}
use consorcioabierto.Identity.Op.{
  Keeps, >>=-Keeps, >>-Keeps, or_fail-Keeps, fail_if-Keeps, lift-Keeps, gets-Keeps, pure-Keeps,
  fail-Keeps, fail,
}
use consorcioabierto.Identity.Tablas.{User, Config, Cripto}
use consorcioabierto.Identity.Consultas.{get_user_by_id, count_recent_login_failures}
use consorcioabierto.Identity.Membresias.{pg_uuid}
use consorcioabierto.Identity.Sesiones.{LoginResult, open_session}
use consorcioabierto.Identity.Sesiones.Conserva.{
  Q, en_db-Keeps, en_tx-Keeps, set_user-Keeps, update_mfa_secret-Keeps, enable_mfa-Keeps,
  disable_mfa-Keeps,
}
use consorcioabierto.Identity.Mfa.{
  totp_nuevo, setup_mfa, confirm_mfa, disable, mfa_subject, secreto_de, secreto_activo, verify_mfa,
}
use consorcioabierto.Identity.Uso.{anotar-Keeps, open_session-Keeps}

module _ (hash : Text) (env : Env) (k : Cripto) (cfg : Config) (ahora : ℕ) where
  pub disable-Keeps : (u : Text) → Keeps (Q hash) (disable env k cfg ahora u)
  unfolding disable
  disable-Keeps u = >>=-Keeps (Q hash) _ _ (lift-Keeps (Q hash) (pg_uuid env ahora u)) (λ uid.
      en_tx-Keeps hash _ (
        >>-Keeps (Q hash) _ _ (en_db-Keeps hash _ (set_user-Keeps hash uid))
          (en_db-Keeps hash _ (disable_mfa-Keeps hash uid))))

  pub confirm_mfa-Keeps : (u code : Text) → Keeps (Q hash) (confirm_mfa env k cfg ahora u code)
  unfolding confirm_mfa
  confirm_mfa-Keeps u code =
      >>=-Keeps (Q hash) _ _ (lift-Keeps (Q hash) (pg_uuid env ahora u)) (λ uid.
        >>=-Keeps (Q hash) _ _ (gets-Keeps (Q hash) (λ s. get_user_by_id uid s.db)) (λ found.
          >>=-Keeps (Q hash) _ _ (or_fail-Keeps (Q hash) found no_rows) (λ user.
            >>=-Keeps (Q hash) _ _ (or_fail-Keeps (Q hash) (secreto_de user) invalid_mfa_code)
              (λ secret.
                >>-Keeps (Q hash) _ _
                  (fail_if-Keeps (Q hash) (not (k.totp_validate ahora code secret))
                    invalid_mfa_code)
                  (en_tx-Keeps hash _ (
                    >>-Keeps (Q hash) _ _ (en_db-Keeps hash _ (set_user-Keeps hash uid))
                      (en_db-Keeps hash _ (enable_mfa-Keeps hash uid))))))))

  totp_nuevo-Keeps : Keeps (Q hash) (totp_nuevo env k cfg ahora)
  unfolding totp_nuevo
  totp_nuevo-Keeps = record { keep = λ s p. p }

  pub setup_mfa-Keeps : (u : Text) → Keeps (Q hash) (setup_mfa env k cfg ahora u)
  unfolding setup_mfa
  setup_mfa-Keeps u = >>=-Keeps (Q hash) _ _ (lift-Keeps (Q hash) (pg_uuid env ahora u)) (λ uid.
      >>=-Keeps (Q hash) _ _ (gets-Keeps (Q hash) (λ s. get_user_by_id uid s.db)) (λ found.
        >>-Keeps (Q hash) _ _ (or_fail-Keeps (Q hash) found no_rows) (
          >>=-Keeps (Q hash) _ _ totp_nuevo-Keeps (λ secret.
            >>-Keeps (Q hash) _ _
              (en_tx-Keeps hash _ (
                >>-Keeps (Q hash) _ _ (en_db-Keeps hash _ (set_user-Keeps hash uid))
                  (en_db-Keeps hash _ (update_mfa_secret-Keeps hash uid secret))))
              (pure-Keeps (Q hash) secret)))))

  segundo_factor-Keeps :
      (b : Bool) (u : User)
      → Keeps (Q hash) (if b then open_session env k cfg ahora u else fail invalid_mfa_code)
  segundo_factor-Keeps true u = open_session-Keeps hash env k cfg ahora u
  segundo_factor-Keeps false u = fail-Keeps (Q hash) LoginResult invalid_mfa_code

  pub verify_mfa-Keeps :
      (token code ip : Text) → Keeps (Q hash) (verify_mfa env k cfg ahora token code ip)
  unfolding verify_mfa
  verify_mfa-Keeps token code ip =
      >>-Keeps (Q hash) _ _ (fail_if-Keeps (Q hash) (not cfg.con_clave) clave_no_configurada) (
        >>=-Keeps (Q hash) _ _ (lift-Keeps (Q hash) (mfa_subject env k cfg ahora token)) (λ uid.
          >>=-Keeps (Q hash) _ _ (gets-Keeps (Q hash) (λ s. get_user_by_id uid s.db)) (λ found.
            >>=-Keeps (Q hash) _ _ (or_fail-Keeps (Q hash) found invalid_mfa_token) (λ user.
              >>-Keeps (Q hash) _ _
                (fail_if-Keeps (Q hash) (not (text_eq user.status (codes "active"))) user_disabled)
                (>>=-Keeps (Q hash) _ _
                  (or_fail-Keeps (Q hash) (secreto_activo env k cfg ahora user) mfa_not_required)
                  (λ secret.
                    >>=-Keeps (Q hash) _ _
                      (gets-Keeps (Q hash) (λ s.
                        count_recent_login_failures ahora user.email_normalized ip
                          cfg.login_attempt_window s.db))
                      (λ failures.
                        >>-Keeps (Q hash) _ _
                          (fail_if-Keeps (Q hash) (leb cfg.login_max_attempts failures)
                            too_many_attempts)
                          (>>-Keeps (Q hash) _ _
                            (anotar-Keeps hash env k cfg ahora user.email_normalized ip
                              (codes "totp") (k.totp_validate ahora code secret))
                            (segundo_factor-Keeps (k.totp_validate ahora code secret) user)))))))))
