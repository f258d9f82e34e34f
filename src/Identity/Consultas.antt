-- ===== src/Identity/Consultas.antt =====
-- internal/database/gen/identity.sql.go, and the functions and policies of db/migrations that its
-- statements run under.
use consorcioabierto.Prelude.{
  ℕ, ◌+◌, Bool, true, false, Option, none, some, List, [], ◌∷◌, ◌++◌, ◌&&◌, not, ◌==◌, ltb,
  if◌then◌else◌, select, any_row, find_row, update_rows, count_rows,
}
use consorcioabierto.Prelude.Text.{Text, text_eq, text_ltb, trim_space, to_lower}
use consorcioabierto.Prelude.Sort.{sort_by}
use consorcioabierto.Action.{
  ok, err, foreign_key_violation, unique_violation, rls_violation, not_null_violation,
}
use consorcioabierto.Env.{Uuid, Env}
use consorcioabierto.Identity.Op.{Op}
use consorcioabierto.Identity.Tablas.{
  User, Tenant, MembershipRow, Role, MembershipRole, RoleScope, Session, RefreshToken, LoginAttempt,
  AuthDb,
}

-- The user of the session is this one: `app.current_user_id()`.
unfoldable pub es_usuario : Uuid → AuthDb → Bool
es_usuario u db = elim db.current_user [ none ↦ false | some v ↦ v == u ]

-- `app.set_app_user_id`
unfoldable pub set_user : Uuid → Op AuthDb (Unit {0})
set_user u db = (ok tt, record db { current_user = some u })

unfoldable pub get_user_by_email : Text → AuthDb → Option User
unfolding find_row text_eq
get_user_by_email email db = find_row (λ u. text_eq u.email_normalized email) db.users

unfoldable pub get_user_by_id : Uuid → AuthDb → Option User
unfolding find_row
get_user_by_id id db = find_row (λ u. u.id == id) db.users

unfoldable pub get_session_by_id : Uuid → AuthDb → Option Session
unfolding find_row es_usuario
get_session_by_id id db = find_row (λ s. s.id == id && es_usuario s.user_id db) db.sessions

pub record MembershipForUser : Type 0 where
  pub membership_id : Uuid
  pub tenant_id : Uuid
  pub membership_status : Text
  pub created_at : ℕ
  pub tenant_name : Text
  pub tenant_status : Text

-- One membership with each tenant that it joins.
join_tenants : MembershipRow → List Tenant → List MembershipForUser
join_tenants m [] = []
join_tenants m (t ∷ ts) =
    let rest = join_tenants m ts in
    if t.id == m.tenant_id
    then record {
      membership_id = m.id;
      tenant_id = m.tenant_id;
      membership_status = m.status;
      created_at = m.created_at;
      tenant_name = t.name;
      tenant_status = t.status;
    }
      ∷ rest
    else rest

join_memberships : Uuid → AuthDb → List MembershipRow → List MembershipForUser
unfolding es_usuario join_tenants
join_memberships user db [] = []
join_memberships user db (m ∷ ms) =
    let rest = join_memberships user db ms in
    if m.user_id == user && es_usuario m.user_id db then join_tenants m db.tenants ++ rest else rest

-- ORDER BY m.created_at
unfoldable pub list_memberships_for_user : Uuid → AuthDb → List MembershipForUser
unfolding join_memberships sort_by
list_memberships_for_user user db =
    sort_by (λ a b. ltb a.created_at b.created_at) (join_memberships user db db.memberships)

-- The membership of a role is the user's: `membership_roles_visible`.
visible_membership : Uuid → AuthDb → Bool
unfolding any_row es_usuario
visible_membership id db = any_row (λ m. m.id == id && es_usuario m.user_id db) db.memberships

role_codes : MembershipRole → List Role → List Text
role_codes mr [] = []
role_codes mr (r ∷ rs) =
    let rest = role_codes mr rs in if r.id == mr.role_id then r.code ∷ rest else rest

join_roles : Uuid → AuthDb → List MembershipRole → List Text
unfolding role_codes visible_membership
join_roles id db [] = []
join_roles id db (mr ∷ mrs) =
    let rest = join_roles id db mrs in
    if mr.membership_id == id && visible_membership mr.membership_id db
    then role_codes mr db.roles ++ rest
    else rest

-- The codes, ORDER BY r.code
unfoldable pub list_roles_for_membership : Uuid → AuthDb → List Text
unfolding join_roles sort_by text_ltb
list_roles_for_membership id db = sort_by text_ltb (join_roles id db db.membership_roles)

-- Without an order: that of the table.
unfoldable pub list_scopes_for_membership : Uuid → AuthDb → List RoleScope
unfolding select any_row visible_membership
list_scopes_for_membership id db =
    select
      (λ rs.
        any_row
          (λ mr.
            mr.id == rs.membership_role_id
            && mr.membership_id == id
            && visible_membership mr.membership_id db)
          db.membership_roles)
      db.role_scopes

-- `app.v_refresh_tokens` shows the tokens of all users.
unfoldable pub lookup_refresh_token : Text → AuthDb → Option RefreshToken
unfolding find_row text_eq
lookup_refresh_token hash db = find_row (λ t. text_eq t.token_hash hash) db.refresh_tokens

unfoldable pub revoked : ℕ → RefreshToken → RefreshToken
revoked at t = record t { revoked_at = some at }

abbrev pub token_de : Uuid → AuthDb → RefreshToken → Bool
token_de id db t = t.id == id && es_usuario t.user_id db

unfoldable pub revoke_refresh_token : Uuid → ℕ → Op AuthDb (Unit {0})
unfolding update_rows es_usuario revoked
revoke_refresh_token id at db = (
  ok tt,
  record db { refresh_tokens = update_rows (token_de id db) (revoked at) db.refresh_tokens },
)

unfoldable pub sin_revocar : RefreshToken → Bool
sin_revocar t = elim t.revoked_at [ none ↦ true | some n ↦ false ]

unfoldable pub vivo_de_familia : Uuid → AuthDb → RefreshToken → Bool
unfolding es_usuario sin_revocar
vivo_de_familia family db t = t.family_id == family && sin_revocar t && es_usuario t.user_id db

unfoldable pub revoke_tokens_by_family : Uuid → ℕ → Op AuthDb (Unit {0})
unfolding update_rows vivo_de_familia revoked
revoke_tokens_by_family family at db = (
  ok tt,
  record db {
    refresh_tokens = update_rows (vivo_de_familia family db) (revoked at) db.refresh_tokens;
  },
)

unfoldable pub revoke_session : Uuid → ℕ → Op AuthDb (Unit {0})
unfolding update_rows es_usuario
revoke_session id at db = (
  ok tt,
  record db {
    sessions =
        update_rows (λ s. s.id == id && es_usuario s.user_id db)
          (λ s. record s { revoked_at = some at }) db.sessions;
  },
)

unfoldable pub update_mfa_secret : Uuid → Text → Op AuthDb (Unit {0})
unfolding update_rows es_usuario
update_mfa_secret id secret db = (
  ok tt,
  record db {
    users =
        update_rows (λ u. u.id == id && es_usuario u.id db)
          (λ u. record u { mfa_secret = some secret }) db.users;
  },
)

tiene_secreto : User → Bool
tiene_secreto u = elim u.mfa_secret [ none ↦ false | some s ↦ true ]

unfoldable pub enable_mfa : Uuid → Op AuthDb (Unit {0})
unfolding update_rows es_usuario tiene_secreto
enable_mfa id db = (
  ok tt,
  record db {
    users =
        update_rows (λ u. u.id == id && tiene_secreto u && es_usuario u.id db)
          (λ u. record u { mfa_enabled = true }) db.users;
  },
)

unfoldable pub disable_mfa : Uuid → Op AuthDb (Unit {0})
unfolding update_rows es_usuario
disable_mfa id db = (
  ok tt,
  record db {
    users =
        update_rows (λ u. u.id == id && es_usuario u.id db)
          (λ u. record u { mfa_enabled = false; mfa_secret = none }) db.users;
  },
)

-- `app.count_recent_login_failures`
unfoldable pub count_recent_login_failures : ℕ → Text → Text → ℕ → AuthDb → ℕ
unfolding count_rows text_eq trim_space to_lower
count_recent_login_failures now email ip window db =
    count_rows
      (λ a.
        text_eq a.email_normalized (to_lower (trim_space email))
        && text_eq a.ip ip
        && not a.success
        && ltb now (a.created_at + window))
      db.login_attempts

-- `app.record_login_attempt`
unfoldable pub record_login_attempt : ℕ → Text → Text → Text → Bool → Op AuthDb (Unit {0})
unfolding trim_space to_lower
record_login_attempt now email ip source success db =
    (let row : LoginAttempt = record {
      email_normalized = to_lower (trim_space email);
      ip = ip;
      source = source;
      success = success;
      created_at = now;
    } in
      (ok tt, record db { login_attempts = db.login_attempts ++ row ∷ [] }))

module _ (env : Env) where
  -- NOT NULL, the keys of the membership and the user, and `sessions_insert`.
  unfoldable pub insert_session : Uuid → Option Uuid → Uuid → ℕ → Op AuthDb Uuid
  unfolding any_row es_usuario
  insert_session user none key expires db = (err not_null_violation, db)
  insert_session user (some membership) key expires db =
      if not (es_usuario user db)
      then (err rls_violation, db)
      else if not
          (any_row (λ m. m.id == membership) db.memberships && any_row (λ u. u.id == user) db.users)
      then (err foreign_key_violation, db)
      else (let row : Session = record {
        id = env.gen_random_uuid db.generated;
        user_id = user;
        membership_id = membership;
        session_key = key;
        expires_at = expires;
        revoked_at = none;
      } in
          (
            ok row.id,
            record db { sessions = db.sessions ++ row ∷ []; generated = db.generated + 1 },
          ))

  abbrev pub nuevo_token : Uuid → Uuid → Text → Uuid → ℕ → AuthDb → RefreshToken
  nuevo_token session user hash family expires db = record {
    id = env.gen_random_uuid db.generated;
    session_id = session;
    user_id = user;
    token_hash = hash;
    family_id = family;
    expires_at = expires;
    revoked_at = none;
  }

  -- `refresh_tokens_insert`, the key of the session, and the unique hash.
  unfoldable pub insert_refresh_token : Uuid → Uuid → Text → Uuid → ℕ → Op AuthDb (Unit {0})
  unfolding any_row es_usuario text_eq
  insert_refresh_token session user hash family expires db =
      if not (es_usuario user db)
      then (err rls_violation, db)
      else if any_row (λ t. text_eq t.token_hash hash) db.refresh_tokens
      then (err unique_violation, db)
      else if not (any_row (λ s. s.id == session) db.sessions)
      then (err foreign_key_violation, db)
      else (
        ok tt,
        record db {
          refresh_tokens =
              db.refresh_tokens ++ nuevo_token session user hash family expires db ∷ [];
          generated = db.generated + 1;
        },
      )
