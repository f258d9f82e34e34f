-- ===== src/Identity/Mfa.antt =====
-- internal/identity/mfa.go: the second factor.
use consorcioabierto.Prelude.{ℕ, ◌+◌, Option, none, some, not, leb, if◌then◌else◌}
use consorcioabierto.Prelude.Text.{Text, codes, text_eq, is_empty}
use consorcioabierto.Action.{
  Result, ok, err, no_rows, clave_no_configurada, invalid_mfa_code, invalid_mfa_token,
  mfa_not_required, user_disabled, too_many_attempts,
}
use consorcioabierto.Env.{Uuid, Env}
use consorcioabierto.Identity.Op.{Op, pure, fail, gets, lift, or_fail, fail_if, ◌>>=◌, ◌>>◌}
use consorcioabierto.Identity.Tablas.{User, Estado, Config, Cripto}
use consorcioabierto.Identity.Consultas.{
  set_user, get_user_by_id, update_mfa_secret, enable_mfa, disable_mfa, count_recent_login_failures,
}
use consorcioabierto.Identity.Tokens.{parse_and_verify_jwt}
use consorcioabierto.Identity.Membresias.{en_db, en_tx, pg_uuid}
use consorcioabierto.Identity.Sesiones.{LoginResult, anotar, open_session}

-- The secret of a user, where there is one that is not empty.
unfoldable pub secreto_de : User → Option Text
unfolding is_empty
secreto_de u = elim u.mfa_secret [ none ↦ none | some s ↦ if is_empty s then none else some s ]

module _ (env : Env) (k : Cripto) (cfg : Config) (ahora : ℕ) where
  -- `totp.Generate`
  unfoldable pub totp_nuevo : Op Estado Text
  totp_nuevo s = (ok (k.totp_secret s.sorteos), record s { sorteos = s.sorteos + 1 })

  -- The secret that is drawn; the URL for the authenticator is derived from it.
  unfoldable pub setup_mfa : Text → Op Estado Text
  unfolding pg_uuid get_user_by_id totp_nuevo en_tx en_db set_user update_mfa_secret
  setup_mfa user_id = do
    uid ← lift (pg_uuid env ahora user_id)
    found ← gets (λ s. get_user_by_id uid s.db)
    or_fail found no_rows
    secret ← totp_nuevo
    en_tx (en_db (set_user uid) >> en_db (update_mfa_secret uid secret))
    pure secret

  unfoldable pub confirm_mfa : Text → Text → Op Estado (Unit {0})
  unfolding pg_uuid get_user_by_id secreto_de en_tx en_db set_user enable_mfa
  confirm_mfa user_id code = do
    uid ← lift (pg_uuid env ahora user_id)
    found ← gets (λ s. get_user_by_id uid s.db)
    user ← or_fail found no_rows
    secret ← or_fail (secreto_de user) invalid_mfa_code
    fail_if (not (k.totp_validate ahora code secret)) invalid_mfa_code
    en_tx (en_db (set_user uid) >> en_db (enable_mfa uid))

  unfoldable pub disable : Text → Op Estado (Unit {0})
  unfolding pg_uuid en_tx en_db set_user disable_mfa
  disable user_id = do
    uid ← lift (pg_uuid env ahora user_id)
    en_tx (en_db (set_user uid) >> en_db (disable_mfa uid))

  -- The user that a token for the second factor names.
  unfoldable pub mfa_subject : Text → Result Uuid
  unfolding parse_and_verify_jwt text_eq
  mfa_subject token = elim (parse_and_verify_jwt env k cfg ahora token cfg.base_url) [
    | err e ↦ err invalid_mfa_token
    | ok c ↦
        if not (text_eq c.purpose (codes "mfa"))
        then err invalid_mfa_token
        else elim (env.scan_uuid c.subject) [ none ↦ err invalid_mfa_token | some u ↦ ok u ]
  ]

  -- The secret to test a code against: MFA has to be on.
  unfoldable pub secreto_activo : User → Option Text
  unfolding secreto_de
  secreto_activo user = if user.mfa_enabled then secreto_de user else none

  unfoldable pub verify_mfa : Text → Text → Text → Op Estado LoginResult
  unfolding mfa_subject get_user_by_id text_eq secreto_activo count_recent_login_failures anotar
      open_session
  verify_mfa token code ip = do
    fail_if (not cfg.con_clave) clave_no_configurada
    uid ← lift (mfa_subject token)
    found ← gets (λ s. get_user_by_id uid s.db)
    user ← or_fail found invalid_mfa_token
    fail_if (not (text_eq user.status (codes "active"))) user_disabled
    secret ← or_fail (secreto_activo user) mfa_not_required
    failures ← gets (λ s.
        count_recent_login_failures ahora user.email_normalized ip cfg.login_attempt_window s.db)
    fail_if (leb cfg.login_max_attempts failures) too_many_attempts
    anotar env k cfg ahora user.email_normalized ip (codes "totp")
        (k.totp_validate ahora code secret)
    if k.totp_validate ahora code secret
        then open_session env k cfg ahora user
        else fail invalid_mfa_code
