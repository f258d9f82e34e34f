-- ===== src/Identity/Sesiones.antt =====
-- internal/identity/auth.go: login, selection of a tenant, rotation of refresh tokens, logout and
-- profile. `ahora` is the clock of a call, which is read once.
pub mod Conserva
pub mod Llamadas
use consorcioabierto.Prelude.{
  ℕ, ◌+◌, Bool, true, false, Option, none, some, List, [], ◌∷◌, not, ltb, leb, if◌then◌else◌,
}
use consorcioabierto.Prelude.Text.{Text, codes, text_eq, trim_space, to_lower}
use consorcioabierto.Action.{
  Result, ok, err, no_rows, invalid_credentials, user_disabled, too_many_attempts,
  invalid_refresh_token, refresh_token_expired, refresh_token_reused, membership_not_found,
  hash_invalido,
}
use consorcioabierto.Env.{Uuid, Env}
use consorcioabierto.Identity.Op.{Op, pure, fail, gets, lift, or_fail, fail_if, ◌>>=◌, ◌>>◌}
use consorcioabierto.Identity.Permisos.{permissions_for_roles}
use consorcioabierto.Identity.Tablas.{User, RefreshToken, Estado, Config, Claims, Cripto}
use consorcioabierto.Identity.Consultas.{
  set_user, get_user_by_email, get_user_by_id, get_session_by_id, list_memberships_for_user,
  lookup_refresh_token, revoke_refresh_token, revoke_tokens_by_family, revoke_session,
  count_recent_login_failures, record_login_attempt, insert_session, insert_refresh_token,
}
use consorcioabierto.Identity.Tokens.{Membership, sign_access_token, sign_mfa_token}
use consorcioabierto.Identity.Membresias.{
  en_db, en_tx, en_consulta, por_cada, pg_uuid, membership_dto, activa, membership_by_id,
}

-- `User`
pub record UserDto : Type 0 where
  pub id : Text
  pub email : Text
  pub name : Text
  pub status : Text
  pub mfa_enabled : Bool

pub record Me : Type 0 where
  pub user : UserDto
  pub membership : Membership
  pub permissions : List Text

pub record LoginResult : Type 0 where
  pub user : UserDto
  pub memberships : List Membership
  pub refresh_token : Text
  pub access_token : Text
  pub mfa_required : Bool
  pub mfa_token : Text

-- `if err == nil`: the result of a call, where it succeeds.
unfoldable pub si_no_falla : {A : Type 0} → Result A × Estado → Result (Option A) × Estado
si_no_falla (ok a, s) = (ok (some a), s)
si_no_falla (err e, s) = (ok none, s)

unfoldable pub intentar : {A : Type 0} → Op Estado A → Op Estado (Option A)
unfolding si_no_falla
intentar m s = si_no_falla (m s)

module _ (env : Env) (k : Cripto) (cfg : Config) (ahora : ℕ) where
  unfoldable pub user_dto : User → UserDto
  user_dto u = record {
    id = env.uuid_string u.id;
    email = u.email_normalized;
    name = u.name;
    status = u.status;
    mfa_enabled = u.mfa_enabled;
  }

  unfoldable pub refresh_hash : Text → Text
  refresh_hash plain = env.sha256_hex plain

  -- A random token, and a random identifier.
  unfoldable pub new_refresh_token : Op Estado Text
  new_refresh_token s = (ok (k.random_token s.sorteos), record s { sorteos = s.sorteos + 1 })

  unfoldable pub new_pg_uuid : Op Estado Uuid
  new_pg_uuid s = (ok (k.new_uuid s.sorteos), record s { sorteos = s.sorteos + 1 })

  -- The first membership, or NULL.
  unfoldable pub first_membership : List Membership → Op Estado (Option Uuid)
  unfolding pg_uuid
  first_membership [] = pure none
  first_membership (m ∷ ms) = do id ← lift (pg_uuid env ahora m.id); pure (some id)

  unfoldable pub issue_access_for : Text → Text → Op Estado Text
  unfolding pg_uuid set_user en_db en_consulta membership_by_id sign_access_token
  issue_access_for user_id membership_id = do
    uid ← lift (pg_uuid env ahora user_id)
    mid ← lift (pg_uuid env ahora membership_id)
    en_consulta (do
      en_db (set_user uid)
      m ← membership_by_id env ahora uid mid
      lift (sign_access_token env k cfg ahora uid mid m))

  -- The transaction of `openSession`: the memberships and the new refresh token.
  unfoldable pub crear_sesion : User → Op Estado (List Membership × Text)
  unfolding set_user en_db list_memberships_for_user membership_dto por_cada first_membership
      new_pg_uuid insert_session new_refresh_token refresh_hash insert_refresh_token
  crear_sesion user = do
    en_db (set_user user.id)
    rows ← gets (λ s. list_memberships_for_user user.id s.db)
    memberships ← por_cada (membership_dto env ahora user.id) rows
    first ← first_membership memberships
    key ← new_pg_uuid
    session ← en_db (insert_session env user.id first key (ahora + cfg.refresh_token_ttl))
    plain ← new_refresh_token
    family ← new_pg_uuid
    en_db (
        insert_refresh_token env session user.id (refresh_hash plain) family
          (ahora + cfg.refresh_token_ttl))
    pure (memberships, plain)

  -- An access token at once, where there is one membership.
  unfoldable pub access_de_una : User → List Membership → Op Estado (Option Text)
  unfolding intentar issue_access_for
  access_de_una user [] = pure none
  access_de_una user (m ∷ []) = intentar (issue_access_for (env.uuid_string user.id) m.id)
  access_de_una user (m ∷ n ∷ ms) = pure none

  unfoldable pub open_session : User → Op Estado LoginResult
  unfolding en_tx crear_sesion access_de_una user_dto
  open_session user = do
    (memberships, plain) ← en_tx (crear_sesion user)
    access ← access_de_una user memberships
    pure (record {
      user = user_dto user;
      memberships = memberships;
      refresh_token = plain;
      access_token = elim access [ none ↦ [] | some t ↦ t ];
      mfa_required = false;
      mfa_token = [];
    })

  -- With a second factor the session waits for it.
  unfoldable pub primer_factor : User → Op Estado LoginResult
  unfolding sign_mfa_token user_dto open_session
  primer_factor user =
      if user.mfa_enabled
      then (lift (sign_mfa_token env k cfg ahora (env.uuid_string user.id)) >>= λ token.
          pure (record {
            user = user_dto user;
            memberships = [];
            refresh_token = [];
            access_token = [];
            mfa_required = true;
            mfa_token = token;
          }))
      else open_session user

  -- The attempt is recorded, whichever way it ends.
  unfoldable pub anotar : Text → Text → Text → Bool → Op Estado (Unit {0})
  unfolding en_db record_login_attempt
  anotar email ip source success = en_db (record_login_attempt ahora email ip source success)

  unfoldable pub verificar_password : Text → Text → Text → User → Op Estado LoginResult
  unfolding text_eq anotar primer_factor
  verificar_password email password ip user = do
    fail_if (not (text_eq user.status (codes "active"))) user_disabled
    coincide ← or_fail (k.compare_password password user.password_hash) hash_invalido
    anotar email ip (codes "password") coincide
    if coincide then primer_factor user else fail invalid_credentials

  unfoldable pub login : Text → Text → Text → Op Estado LoginResult
  unfolding trim_space to_lower count_recent_login_failures get_user_by_email anotar
      verificar_password
  login email password ip = do
    failures ← gets (λ s.
        count_recent_login_failures ahora (to_lower (trim_space email)) ip cfg.login_attempt_window
          s.db)
    fail_if (leb cfg.login_max_attempts failures) too_many_attempts
    found ← gets (λ s. get_user_by_email (to_lower (trim_space email)) s.db)
    elim found [
      | none ↦
          anotar (to_lower (trim_space email)) ip (codes "password") false
          >> fail invalid_credentials
      | some user ↦ verificar_password (to_lower (trim_space email)) password ip user
    ]

  unfoldable pub select_tenant : Text → Text → Op Estado (Me × Text)
  unfolding pg_uuid get_user_by_id set_user en_db en_consulta list_memberships_for_user activa
      sign_access_token user_dto permissions_for_roles
  select_tenant user_id membership_id = do
    uid ← lift (pg_uuid env ahora user_id)
    mid ← lift (pg_uuid env ahora membership_id)
    found ← gets (λ s. get_user_by_id uid s.db)
    user ← or_fail found no_rows
    en_consulta (do
      en_db (set_user uid)
      rows ← gets (λ s. list_memberships_for_user uid s.db)
      m ← activa env ahora uid membership_id rows
      access ← lift (sign_access_token env k cfg ahora uid mid m)
      pure (
        record {
          user = user_dto user;
          membership = m;
          permissions = permissions_for_roles m.roles;
        },
        access,
      ))

  unfoldable pub revoke_family : Uuid → Uuid → Op Estado (Unit {0})
  unfolding en_tx en_db set_user revoke_tokens_by_family
  revoke_family user family =
      en_tx (en_db (set_user user) >> en_db (revoke_tokens_by_family family ahora))

  -- What takes the place of a token: another one of the same family, and an access token for the
  -- membership of the session.
  unfoldable pub emitir : RefreshToken → Op Estado (Text × Text)
  unfolding en_db new_refresh_token pg_uuid insert_refresh_token refresh_hash get_session_by_id
      membership_by_id sign_access_token
  emitir tok = do
    plain ← new_refresh_token
    uid ← lift (pg_uuid env ahora (env.uuid_string tok.user_id))
    en_db (
        insert_refresh_token env tok.session_id uid (refresh_hash plain) tok.family_id
          (ahora + cfg.refresh_token_ttl))
    found ← gets (λ s. get_session_by_id tok.session_id s.db)
    session ← or_fail found no_rows
    m ← membership_by_id env ahora uid session.membership_id
    access ← lift (sign_access_token env k cfg ahora uid session.membership_id m)
    pure (access, plain)

  -- The transaction of `Refresh`: the token is revoked and another one takes its place.
  unfoldable pub rotar : RefreshToken → Op Estado (Text × Text)
  unfolding en_db set_user revoke_refresh_token emitir
  rotar tok =
      en_db (set_user tok.user_id) >> (en_db (revoke_refresh_token tok.id ahora) >> emitir tok)

  -- A token that was revoked and is used again takes its family down.
  unfoldable pub refresh_de : RefreshToken → Op Estado (Text × Text)
  unfolding revoke_family en_tx rotar
  refresh_de tok = elim tok.revoked_at [
    | some n ↦ revoke_family tok.user_id tok.family_id >> fail refresh_token_reused
    | none ↦ if ltb tok.expires_at ahora then fail refresh_token_expired else en_tx (rotar tok)
  ]

  unfoldable pub refresh : Text → Op Estado (Text × Text)
  unfolding lookup_refresh_token refresh_hash refresh_de
  refresh plain = do
    found ← gets (λ s. lookup_refresh_token (refresh_hash plain) s.db)
    tok ← or_fail found invalid_refresh_token
    refresh_de tok

  unfoldable pub logout_de : RefreshToken → Op Estado (Unit {0})
  unfolding en_tx en_db set_user revoke_refresh_token revoke_session
  logout_de tok = elim tok.revoked_at [
    | some n ↦ pure tt
    | none ↦ en_tx (
        en_db (set_user tok.user_id)
        >> en_db (revoke_refresh_token tok.id ahora)
        >> en_db (revoke_session tok.session_id ahora))
  ]

  unfoldable pub logout : Text → Op Estado (Unit {0})
  unfolding lookup_refresh_token refresh_hash logout_de
  logout plain = do
    found ← gets (λ s. lookup_refresh_token (refresh_hash plain) s.db)
    elim found [ none ↦ pure tt | some tok ↦ logout_de tok ]

  -- `pgUUID(claims.Membership)`, whose error is a membership that is not found.
  unfoldable pub membership_de : Claims → Result Uuid
  membership_de c = elim (env.scan_uuid c.membership) [
    | none ↦ err membership_not_found
    | some u ↦ ok u
  ]

  unfoldable pub me : Claims → Op Estado Me
  unfolding pg_uuid get_user_by_id set_user en_db en_consulta membership_de membership_by_id
      user_dto permissions_for_roles
  me claims = do
    uid ← lift (pg_uuid env ahora claims.subject)
    found ← gets (λ s. get_user_by_id uid s.db)
    user ← or_fail found no_rows
    en_consulta (do
      en_db (set_user uid)
      mid ← lift (membership_de claims)
      m ← membership_by_id env ahora uid mid
      pure (record {
        user = user_dto user;
        membership = m;
        permissions = permissions_for_roles m.roles;
      }))

  unfoldable pub list_memberships : Claims → Op Estado (List Membership)
  unfolding pg_uuid set_user en_db en_consulta list_memberships_for_user por_cada membership_dto
  list_memberships claims = do
    uid ← lift (pg_uuid env ahora claims.subject)
    en_consulta (do
      en_db (set_user uid)
      rows ← gets (λ s. list_memberships_for_user uid s.db)
      por_cada (membership_dto env ahora uid) rows)

  unfoldable pub permissions_for_claims : Claims → Op Estado (List Text)
  unfolding pg_uuid membership_de set_user en_db en_consulta membership_by_id permissions_for_roles
  permissions_for_claims claims = do
    uid ← lift (pg_uuid env ahora claims.subject)
    mid ← lift (membership_de claims)
    en_consulta (do
      en_db (set_user uid)
      m ← membership_by_id env ahora uid mid
      pure (permissions_for_roles m.roles))
