-- ===== src/Identity/Firma.antt =====
-- Tokens that the package signs, read back.
use consorcioabierto.Prelude.{
  ℕ, ◌+◌, Bool, true, false, none, some, ◌≡◌, refl, ap, ◌∙◌, inl, inr, Bool-cases, not, leb,
  if◌then◌else◌,
}
use consorcioabierto.Prelude.Text.{Text, codes, text_eq, text_eq_refl, is_empty}
use consorcioabierto.Action.{
  Error, Result, clave_no_configurada, ok, err, token_rechazado, invalid_mfa_token,
}
use consorcioabierto.Env.{Uuid, Env, UuidRoundTrip}
use consorcioabierto.Identity.Tablas.{Config, Claims, Cripto, CriptoLaws}
use consorcioabierto.Identity.Jwt.{sign_jwt, verificar}
use consorcioabierto.Identity.Jwt.Lectura.{verificar-sign_jwt}
use consorcioabierto.Identity.Tokens.{
  Membership, access_claims, sign_access_token, mfa_claims, sign_mfa_token, en_vigor,
  parse_and_verify_jwt, verify_access_token,
}
use consorcioabierto.Identity.Mfa.{mfa_subject}

nuestro :
    (env : Env) (k : Cripto) (cfg : Config) (ahora : ℕ) (uid mid : Uuid) (m : Membership)
    → (access_claims env k cfg ahora uid mid m).issuer ≡ cfg.base_url
unfolding access_claims
nuestro env k cfg ahora uid mid m = refl

vence :
    (env : Env) (k : Cripto) (cfg : Config) (ahora : ℕ) (uid mid : Uuid) (m : Membership)
    → (access_claims env k cfg ahora uid mid m).expires_at ≡ ahora + cfg.access_token_ttl
unfolding access_claims
vence env k cfg ahora uid mid m = refl

module _ (env : Env) (k : Cripto) (cfg : Config) (luego : ℕ) where
  en_vigor-nuestro :
      (c : Claims)
      → c.issuer ≡ cfg.base_url
      → en_vigor env k cfg luego cfg.base_url c
        ≡ (if leb c.expires_at luego then err token_rechazado else ok c)
  unfolding en_vigor
  en_vigor-nuestro c e = elim (Bool-cases (leb c.expires_at luego)) [
    | inl vencido ↦ rw vencido refl
    | inr vigente ↦ elim (Bool-cases (is_empty cfg.base_url)) [
      | inl vacio ↦ rw (vigente, vacio) refl
      | inr nombrado ↦ rw (vigente, nombrado, e, text_eq_refl cfg.base_url) refl
    ]
  ]

  leido :
      (c : Claims) (token : Text)
      → verificar k token ≡ some c
      → c.issuer ≡ cfg.base_url
      → parse_and_verify_jwt env k cfg luego token cfg.base_url
        ≡ (if leb c.expires_at luego then err token_rechazado else ok c)
  unfolding parse_and_verify_jwt
  leido c token firma e =
      ap
        (λ o. elim o [
          | none ↦ err token_rechazado
          | some d ↦ en_vigor env k cfg luego cfg.base_url d
        ])
        firma
      ∙ en_vigor-nuestro c e

-- What a token for the second factor is taken for, by its claims.
module _ (env : Env) (k : Cripto) (cfg : Config) (luego : ℕ) where
  sujeto : Claims → Result Uuid
  sujeto c =
      if not (text_eq c.purpose (codes "mfa"))
      then err invalid_mfa_token
      else elim (env.scan_uuid c.subject) [ none ↦ err invalid_mfa_token | some u ↦ ok u ]

  mfa_subject-firmado :
      (c : Claims) (token : Text)
      → verificar k token ≡ some c
      → c.issuer ≡ cfg.base_url
      → mfa_subject env k cfg luego token
        ≡ (if leb c.expires_at luego then err invalid_mfa_token else sujeto c)
  unfolding mfa_subject sujeto
  mfa_subject-firmado c token firma e =
      ap (λ r. elim r [ err x ↦ err invalid_mfa_token | ok d ↦ sujeto d ])
        (leido env k cfg luego c token firma e)
      ∙ elim (Bool-cases (leb c.expires_at luego)) [
        | inl vencido ↦ rw vencido refl
        | inr vigente ↦ rw vigente refl
      ]

  del_segundo :
      (ahora : ℕ) (user : Uuid)
      → UuidRoundTrip env
      → sujeto (mfa_claims env k cfg ahora (env.uuid_string user)) ≡ ok user
  unfolding sujeto mfa_claims text_eq
  del_segundo ahora user ids = rw (ids user) refl

  del_primero :
      (ahora : ℕ) (uid mid : Uuid) (m : Membership)
      → sujeto (access_claims env k cfg ahora uid mid m) ≡ err invalid_mfa_token
  unfolding sujeto access_claims text_eq
  del_primero ahora uid mid m = refl

  siempre :
      (b : Bool) (r : Result Uuid)
      → r ≡ err invalid_mfa_token
      → (if b then err invalid_mfa_token else r) ≡ err invalid_mfa_token
  siempre true r h = refl
  siempre false r h = h

con_clave_firma :
    {A : Type 0} (b : Bool) (e : Error) (r : Result A) (a : A)
    → (if not b then Result.err e else r) ≡ ok a
    → (b ≡ true) × (r ≡ ok a)
con_clave_firma true e r a h = (refl, h)
con_clave_firma false e r a h = cc

-- An access token that was signed, laid out and verified as jwt.go does, is read back as the claims
-- that were signed until it expires, and is rejected from then on, where base64, JSON and RSA keep what
-- is documented of them.
pub access_token-verify :
    (env : Env) (k : Cripto) (cfg : Config) (ahora luego : ℕ) (uid mid : Uuid) (m : Membership)
    (token : Text)
    → CriptoLaws k
    → sign_access_token env k cfg ahora uid mid m ≡ ok token
    → verify_access_token env k cfg luego token ≡ (
        if leb (ahora + cfg.access_token_ttl) luego
        then err token_rechazado
        else ok (access_claims env k cfg ahora uid mid m))
unfolding sign_access_token verify_access_token
access_token-verify env k cfg ahora luego uid mid m token laws h =
    let c = access_claims env k cfg ahora uid mid m in
    let (clave, firmado) =
      con_clave_firma cfg.con_clave clave_no_configurada (sign_jwt k c) token h in
    rw clave (
      leido env k cfg luego c token (verificar-sign_jwt k laws c token firmado)
        (nuestro env k cfg ahora uid mid m)
      ∙ rw (vence env k cfg ahora uid mid m) refl)

-- The token for the second factor names its user until it expires; no access token is taken for
-- one, since it has no purpose. It is where base64, JSON and RSA keep what is
-- documented of them, and an identifier that is printed scans back.
pub mfa_token-subject :
    (env : Env) (k : Cripto) (cfg : Config) (ahora luego : ℕ) (user uid mid : Uuid) (m : Membership)
    (mfa access : Text)
    → CriptoLaws k
    → UuidRoundTrip env
    → sign_mfa_token env k cfg ahora (env.uuid_string user) ≡ ok mfa
    → sign_access_token env k cfg ahora uid mid m ≡ ok access
    → (mfa_subject env k cfg luego mfa
        ≡ (if leb (ahora + cfg.mfa_token_ttl) luego then err invalid_mfa_token else ok user))
      × (mfa_subject env k cfg luego access ≡ err invalid_mfa_token)
unfolding sign_mfa_token sign_access_token mfa_claims
mfa_token-subject env k cfg ahora luego user uid mid m mfa access laws ids h h' =
    let c = mfa_claims env k cfg ahora (env.uuid_string user) in
    let d = access_claims env k cfg ahora uid mid m in
    let f = (con_clave_firma cfg.con_clave clave_no_configurada (sign_jwt k c) mfa h).1 in
    let f' = (con_clave_firma cfg.con_clave clave_no_configurada (sign_jwt k d) access h').1 in
    (
      mfa_subject-firmado env k cfg luego c mfa (verificar-sign_jwt k laws c mfa f) refl
          ∙ ap (λ r. if leb (ahora + cfg.mfa_token_ttl) luego then err invalid_mfa_token else r)
              (del_segundo env k cfg luego ahora user ids),
      mfa_subject-firmado env k cfg luego d access (verificar-sign_jwt k laws d access f')
            (nuestro env k cfg ahora uid mid m)
          ∙ siempre env k cfg luego (leb d.expires_at luego) (sujeto env k cfg luego d)
              (del_primero env k cfg luego ahora uid mid m),
    )
