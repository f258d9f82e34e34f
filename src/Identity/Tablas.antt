-- ===== src/Identity/Tablas.antt =====
-- Rows of users, memberships, roles, sessions and refresh tokens (internal/database/gen/models.go),
-- and what internal/identity keeps and is configured with.
use consorcioabierto.Prelude.{ℕ, Bool, true, false, Option, some, List, ◌≡◌, ◌==◌, any_row}
use consorcioabierto.Prelude.Text.{Text}
use consorcioabierto.Env.{Uuid}
use consorcioabierto.Identity.Cache.{MembershipCache}

pub record User : Type 0 where
  pub id : Uuid
  pub email_normalized : Text
  pub password_hash : Text
  pub name : Text
  pub status : Text
  pub mfa_enabled : Bool
  pub created_at : ℕ
  pub updated_at : ℕ
  pub mfa_secret : Option Text

pub record Tenant : Type 0 where
  pub id : Uuid
  pub name : Text
  pub status : Text

pub record MembershipRow : Type 0 where
  pub id : Uuid
  pub user_id : Uuid
  pub tenant_id : Uuid
  pub status : Text
  pub created_at : ℕ

pub record Role : Type 0 where
  pub id : Uuid
  pub code : Text
  pub label : Text

pub record MembershipRole : Type 0 where
  pub id : Uuid
  pub membership_id : Uuid
  pub role_id : Uuid

pub record RoleScope : Type 0 where
  pub membership_role_id : Uuid
  pub scope_type : Text
  pub scope_id : Option Uuid

pub record Session : Type 0 where
  pub id : Uuid
  pub user_id : Uuid
  pub membership_id : Uuid
  pub session_key : Uuid
  pub expires_at : ℕ
  pub revoked_at : Option ℕ

-- A row of `refresh_tokens`, and of the view `app.v_refresh_tokens`.
pub record RefreshToken : Type 0 where
  pub id : Uuid
  pub session_id : Uuid
  pub user_id : Uuid
  pub token_hash : Text
  pub family_id : Uuid
  pub expires_at : ℕ
  pub revoked_at : Option ℕ

pub record LoginAttempt : Type 0 where
  pub email_normalized : Text
  pub ip : Text
  pub source : Text
  pub success : Bool
  pub created_at : ℕ

-- The tables, the user that row level security tests, and how many identifiers and random tokens
-- were made.
pub record AuthDb : Type 0 where
  pub current_user : Option Uuid
  pub generated : ℕ
  pub users : List User
  pub tenants : List Tenant
  pub memberships : List MembershipRow
  pub roles : List Role
  pub membership_roles : List MembershipRole
  pub role_scopes : List RoleScope
  pub sessions : List Session
  pub refresh_tokens : List RefreshToken
  pub login_attempts : List LoginAttempt

-- The tables and the memory of the process. Random tokens are counted here: a transaction that is
-- rolled back does not draw the same one again.
pub record Estado : Type 0 where
  pub db : AuthDb
  pub cache : MembershipCache
  pub sorteos : ℕ

-- `config.Config`, as far as it is used, with times in seconds, and whether a key is configured.
pub record Config : Type 0 where
  pub base_url : Text
  pub access_token_ttl : ℕ
  pub refresh_token_ttl : ℕ
  pub mfa_token_ttl : ℕ
  pub login_max_attempts : ℕ
  pub login_attempt_window : ℕ
  pub con_clave : Bool

pub record Claims : Type 0 where
  pub issuer : Text
  pub subject : Text
  pub issued_at : ℕ
  pub expires_at : ℕ
  pub purpose : Text
  pub email : Text
  pub name : Text
  pub membership : Text
  pub tenant : Text
  pub roles : List Text
  pub scope_type : Text
  pub scope_id : Text
  pub session_key : Text

-- Cryptography of other packages: Argon2id with its encoding, TOTP secrets and codes at a time, random tokens
-- in hexadecimal, random identifiers, the JSON of the header and of claims, base64 without padding for
-- URLs, and the RSA signature of a SHA-256 digest with its verification.
pub record Cripto : Type 0 where
  pub compare_password : Text → Text → Option Bool
  pub totp_validate : ℕ → Text → Text → Bool
  pub random_token : ℕ → Text
  pub totp_secret : ℕ → Text
  pub new_uuid : ℕ → Uuid
  pub json_header : Text
  pub marshal : Claims → Text
  pub unmarshal : Text → Option Claims
  pub b64url : Text → Text
  pub b64url_decode : Text → Option Text
  pub rsa_sign : Text → Option Text
  pub rsa_verify : Text → Text → Bool

-- What is documented of them: what is encoded is decoded, base64 has no dots, and a signature verifies.
pub record CriptoLaws (k : Cripto) : Type 0 where
  pub unmarshal-marshal : (c : Claims) → k.unmarshal (k.marshal c) ≡ some c
  pub decode-b64url : (s : Text) → k.b64url_decode (k.b64url s) ≡ some s
  pub sin_puntos : (s : Text) → any_row (λ c. c == b'.') (k.b64url s) ≡ false
  pub verify-sign : (m sig : Text) → k.rsa_sign m ≡ some sig → k.rsa_verify m sig ≡ true
