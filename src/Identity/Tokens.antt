-- ===== src/Identity/Tokens.antt =====
-- internal/identity/jwt.go, and the tokens that auth.go and mfa.go sign.
use consorcioabierto.Prelude.{
  ℕ, ◌+◌, Option, none, some, List, [], ◌∷◌, ◌&&◌, not, ◌==◌, leb, if◌then◌else◌,
}
use consorcioabierto.Prelude.Text.{Text, codes, text_eq, is_empty}
use consorcioabierto.Action.{Result, ok, err, clave_no_configurada, token_rechazado}
use consorcioabierto.Env.{Uuid, Env}
use consorcioabierto.Identity.Jwt.{sign_jwt, verificar}
use consorcioabierto.Identity.Tablas.{Config, Claims, Cripto}

-- `Membership`
pub record Membership : Type 0 where
  pub id : Text
  pub tenant_id : Text
  pub tenant_name : Text
  pub tenant_status : Text
  pub status : Text
  pub roles : List Text
  pub scopes : List Text

-- `strings.SplitN(s, ":", 2)`: what stands before the first colon, and what after it, if there is one.
unfoldable pub split_colon : Text → Text × Option Text
split_colon [] = ([], none)
split_colon (c ∷ s) =
    let (front, back) = split_colon s in if c == b':' then ([], some s) else (c ∷ front, back)

primer_scope : List Text → Text × Text
unfolding split_colon
primer_scope [] = ([], [])
primer_scope (s ∷ ss) =
    let (front, back) = split_colon s in (front, elim back [ none ↦ [] | some t ↦ t ])

module _ (env : Env) (k : Cripto) (cfg : Config) (ahora : ℕ) where
  unfoldable pub access_claims : Uuid → Uuid → Membership → Claims
  unfolding primer_scope
  access_claims uid mid m =
      (let (scope_type, scope_id) = primer_scope m.scopes in
        record {
          issuer = cfg.base_url;
          subject = env.uuid_string uid;
          issued_at = ahora;
          expires_at = ahora + cfg.access_token_ttl;
          purpose = [];
          email = [];
          name = [];
          membership = env.uuid_string mid;
          tenant = m.tenant_id;
          roles = m.roles;
          scope_type = scope_type;
          scope_id = scope_id;
          session_key = [];
        })

  unfoldable pub sign_access_token : Uuid → Uuid → Membership → Result Text
  unfolding access_claims sign_jwt
  sign_access_token uid mid m =
      if not cfg.con_clave then err clave_no_configurada else sign_jwt k (access_claims uid mid m)

  unfoldable pub mfa_claims : Text → Claims
  mfa_claims user_id = record {
    issuer = cfg.base_url;
    subject = user_id;
    issued_at = ahora;
    expires_at = ahora + cfg.mfa_token_ttl;
    purpose = codes "mfa";
    email = [];
    name = [];
    membership = [];
    tenant = [];
    roles = [];
    scope_type = [];
    scope_id = [];
    session_key = [];
  }

  unfoldable pub sign_mfa_token : Text → Result Text
  unfolding mfa_claims sign_jwt
  sign_mfa_token user_id =
      if not cfg.con_clave then err clave_no_configurada else sign_jwt k (mfa_claims user_id)

  -- The claims of a token whose signature holds, while it is in force and ours.
  unfoldable pub en_vigor : Text → Claims → Result Claims
  unfolding is_empty text_eq
  en_vigor issuer c =
      if leb c.expires_at ahora
      then err token_rechazado
      else if not (is_empty issuer) && not (text_eq c.issuer issuer)
      then err token_rechazado
      else ok c

  unfoldable pub parse_and_verify_jwt : Text → Text → Result Claims
  unfolding en_vigor verificar
  parse_and_verify_jwt token issuer = elim (verificar k token) [
    | none ↦ err token_rechazado
    | some c ↦ en_vigor issuer c
  ]

  unfoldable pub verify_access_token : Text → Result Claims
  unfolding parse_and_verify_jwt
  verify_access_token token =
      if not cfg.con_clave
      then err clave_no_configurada
      else parse_and_verify_jwt token cfg.base_url
