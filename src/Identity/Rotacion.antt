-- ===== src/Identity/Rotacion.antt =====
-- A refresh token works once, and its reuse takes down the tokens of its family.
use mathlib.Core.Path.{subst}
use consorcioabierto.Prelude.{
  ℕ, true, false, ◌&&◌, Option, none, some, ◌≡◌, refl, sym, ap, ◌∙◌, inl, inr, ◌⊎◌, ◌==◌, ltb,
  Bool-cases, update_rows, arith,
}
use consorcioabierto.Prelude.Rows.{find_row-updated}
use consorcioabierto.Prelude.Text.{Text, text_eq}
use consorcioabierto.Action.{Result, ok, err, refresh_token_reused, invalid_refresh_token}
use consorcioabierto.Env.{Uuid, Env}
use consorcioabierto.Identity.Op.{◌>>=◌, ◌>>◌}
use consorcioabierto.Identity.Tablas.{RefreshToken, AuthDb, Estado, Config, Claims, Cripto}
use consorcioabierto.Identity.Consultas.{
  lookup_refresh_token, set_user, revoke_refresh_token, revoked, token_de, es_usuario,
  revoke_tokens_by_family, vivo_de_familia, sin_revocar,
}
use consorcioabierto.Identity.Membresias.{en_db, en_tx, terminar}
use consorcioabierto.Identity.Sesiones.{
  refresh_hash, refresh, refresh_de, rotar, revoke_family, login, logout, select_tenant, me,
  list_memberships, permissions_for_claims,
}
use consorcioabierto.Identity.Sesiones.Conserva.{Revocado, Q}
use consorcioabierto.Identity.Sesiones.Llamadas.{emitir-Keeps}
use consorcioabierto.Identity.Mfa.{setup_mfa, confirm_mfa, disable, verify_mfa}
use consorcioabierto.Identity.Uso.{login-Keeps}
use consorcioabierto.Identity.Uso.Refresco.{
  refresh-Keeps, logout-Keeps, select_tenant-Keeps, me-Keeps, list_memberships-Keeps,
  permissions_for_claims-Keeps,
}
use consorcioabierto.Identity.Uso.Segundo.{
  disable-Keeps, confirm_mfa-Keeps, setup_mfa-Keeps, verify_mfa-Keeps,
}

Option-cases : {A : Type 0} (o : Option A) → (o ≡ none) ⊎ ((a : A) × (o ≡ some a))
Option-cases none = inl refl
Option-cases (some a) = inr (a, refl)

-- One call of the package, whether it succeeds or fails.
pub data Llamada (env : Env) (k : Cripto) (cfg : Config) : Estado → Estado → Type 0 where
  entra :
      {s : Estado} (ahora : ℕ) (email password ip : Text)
      → Llamada env k cfg s ((login env k cfg ahora email password ip s).1)
  renueva :
      {s : Estado} (ahora : ℕ) (plain : Text)
      → Llamada env k cfg s ((refresh env k cfg ahora plain s).1)
  sale :
      {s : Estado} (ahora : ℕ) (plain : Text)
      → Llamada env k cfg s ((logout env k cfg ahora plain s).1)
  elige :
      {s : Estado} (ahora : ℕ) (user_id membership_id : Text)
      → Llamada env k cfg s ((select_tenant env k cfg ahora user_id membership_id s).1)
  perfil :
      {s : Estado} (ahora : ℕ) (claims : Claims)
      → Llamada env k cfg s ((me env k cfg ahora claims s).1)
  membresias :
      {s : Estado} (ahora : ℕ) (claims : Claims)
      → Llamada env k cfg s ((list_memberships env k cfg ahora claims s).1)
  permisos :
      {s : Estado} (ahora : ℕ) (claims : Claims)
      → Llamada env k cfg s ((permissions_for_claims env k cfg ahora claims s).1)
  prepara :
      {s : Estado} (ahora : ℕ) (user_id : Text)
      → Llamada env k cfg s ((setup_mfa env k cfg ahora user_id s).1)
  confirma :
      {s : Estado} (ahora : ℕ) (user_id code : Text)
      → Llamada env k cfg s ((confirm_mfa env k cfg ahora user_id code s).1)
  desactiva :
      {s : Estado} (ahora : ℕ) (user_id : Text)
      → Llamada env k cfg s ((disable env k cfg ahora user_id s).1)
  completa :
      {s : Estado} (ahora : ℕ) (token code ip : Text)
      → Llamada env k cfg s ((verify_mfa env k cfg ahora token code ip s).1)

pub data Llamadas (env : Env) (k : Cripto) (cfg : Config) (s₀ : Estado) : Estado → Type 0 where
  ninguna : Llamadas env k cfg s₀ s₀
  otra :
      {s s' : Estado} → Llamadas env k cfg s₀ s → Llamada env k cfg s s' → Llamadas env k cfg s₀ s'

module _ (env : Env) (k : Cripto) (cfg : Config) (hash : Text) where
  llamada-Q : {s s' : Estado} → Llamada env k cfg s s' → Q hash s → Q hash s'
  llamada-Q (entra a e p i) q = (login-Keeps hash env k cfg a e p i).keep _ q
  llamada-Q (renueva a p) q = (refresh-Keeps hash env k cfg a p).keep _ q
  llamada-Q (sale a p) q = (logout-Keeps hash env k cfg a p).keep _ q
  llamada-Q (elige a u m) q = (select_tenant-Keeps hash env k cfg a u m).keep _ q
  llamada-Q (perfil a c) q = (me-Keeps hash env k cfg a c).keep _ q
  llamada-Q (membresias a c) q = (list_memberships-Keeps hash env k cfg a c).keep _ q
  llamada-Q (permisos a c) q = (permissions_for_claims-Keeps hash env k cfg a c).keep _ q
  llamada-Q (prepara a u) q = (setup_mfa-Keeps hash env k cfg a u).keep _ q
  llamada-Q (confirma a u c) q = (confirm_mfa-Keeps hash env k cfg a u c).keep _ q
  llamada-Q (desactiva a u) q = (disable-Keeps hash env k cfg a u).keep _ q
  llamada-Q (completa a t c i) q = (verify_mfa-Keeps hash env k cfg a t c i).keep _ q

  llamadas-Q : {s s' : Estado} → Q hash s → Llamadas env k cfg s s' → Q hash s'
  llamadas-Q q ninguna = q
  llamadas-Q q (otra ls l) = llamada-Q l (llamadas-Q q ls)

-- A token found by its hash is revoked once its row is.
primero :
    (hash : Text) (t : RefreshToken) (db : AuthDb) (at : ℕ)
    → lookup_refresh_token hash db ≡ some t
    → let db' = record db { current_user = some t.user_id } in
      Revocado hash (record db' {
        refresh_tokens = update_rows (token_de t.id db') (revoked at) db.refresh_tokens;
      })
unfolding lookup_refresh_token revoked es_usuario
primero hash t db at found =
    let db' : AuthDb = record db { current_user = some t.user_id } in
    (
      revoked at t,
      at,
      find_row-updated (λ x. text_eq x.token_hash hash) (token_de t.id db') (revoked at)
            db.refresh_tokens t found (λ y. refl)
          ∙ rw (propio t.id t.user_id) refl,
      refl,
    )
  where
    propio : (a b : ℕ) → (a == a) && (b == b) ≡ true
    propio a b = ground arith

module _ (env : Env) (k : Cripto) (cfg : Config) (ahora : ℕ) where
  refresh_de-reusado :
      (t : RefreshToken) (n : ℕ) (s : Estado)
      → t.revoked_at ≡ some n
      → (refresh_de env k cfg ahora t s).0 ≡ err refresh_token_reused
  unfolding refresh_de revoke_family en_tx en_db terminar ◌>>=◌ ◌>>◌
  refresh_de-reusado t n s rev = rw rev refl

  -- The call goes on with the token that it finds.
  hallado :
      (plain : Text) (s : Estado) (t : RefreshToken)
      → lookup_refresh_token (env.sha256_hex plain) s.db ≡ some t
      → refresh env k cfg ahora plain s ≡ refresh_de env k cfg ahora t s
  unfolding refresh refresh_hash ◌>>=◌ ◌>>◌
  hallado plain s t found = rw found refl

  -- A token that was revoked is refused as reused.
  reusado :
      (plain : Text) (s : Estado)
      → Revocado (env.sha256_hex plain) s.db
      → (refresh env k cfg ahora plain s).0 ≡ err refresh_token_reused
  reusado plain s (t, n, found, rev) =
      ap (λ r. r.0) (hallado plain s t found) ∙ refresh_de-reusado t n s rev

  -- No token is found.
  perdido :
      (plain : Text) (s : Estado)
      → lookup_refresh_token (env.sha256_hex plain) s.db ≡ none
      → (refresh env k cfg ahora plain s).0 ≡ err invalid_refresh_token
  unfolding refresh refresh_hash ◌>>=◌ ◌>>◌
  perdido plain s falta = rw falta refl

  -- The rotation itself revokes the token first.
  rotar-Q :
      (hash : Text) (t : RefreshToken) (s : Estado)
      → lookup_refresh_token hash s.db ≡ some t
      → Q hash ((rotar env k cfg ahora t s).1)
  unfolding rotar ◌>>=◌ ◌>>◌ en_db set_user revoke_refresh_token
  rotar-Q hash t s found =
      (emitir-Keeps hash env k cfg ahora t).keep _ (primero hash t s.db ahora found)

  terminar-Q :
      {A : Type 0} (hash : Text) (antes : AuthDb) (r : Result A × Estado) (a : A) (s' : Estado)
      → terminar antes r ≡ (ok a, s')
      → Q hash r.1
      → Q hash s'
  unfolding terminar lookup_refresh_token
  terminar-Q hash antes (ok b, s) a s' h q = subst (Q hash) (ap (λ x. x.1) h) q
  terminar-Q hash antes (err e, s) a s' h q = cc (ap (λ x. x.0) h)

  -- What a call that succeeded on a token that was found leaves.
  gasta_de :
      (hash : Text) (t : RefreshToken) (s s' : Estado) (r : Text × Text)
      → lookup_refresh_token hash s.db ≡ some t
      → refresh_de env k cfg ahora t s ≡ (ok r, s')
      → Q hash s'
  unfolding refresh_de en_tx
  gasta_de hash t s s' r found h = elim (Option-cases t.revoked_at) [
    | inr (n, rev) ↦ cc (refresh_de-reusado t n s rev, ap (λ x. x.0) h)
    | inl vivo ↦ elim (Bool-cases (ltb t.expires_at ahora)) [
      | inl vencido ↦ cc (ap (λ x. x.0) (rw (vivo, vencido) at h))
      | inr vigente ↦
          terminar-Q hash s.db (rotar env k cfg ahora t s) r s' (rw (vivo, vigente) at h)
            (rotar-Q hash t s found)
    ]
  ]

  gasta :
      (plain : Text) (s s' : Estado) (r : Text × Text)
      → refresh env k cfg ahora plain s ≡ (ok r, s')
      → Q (env.sha256_hex plain) s'
  gasta plain s s' r h = elim (Option-cases (lookup_refresh_token (env.sha256_hex plain) s.db)) [
    | inl falta ↦ cc (perdido plain s falta, ap (λ x. x.0) h)
    | inr (t, found) ↦
        gasta_de (env.sha256_hex plain) t s s' r found (sym (hallado plain s t found) ∙ h)
  ]

-- A refresh token works once: after a call that succeeded with it, and any sequence of other calls
-- that succeed or fail, at any times, a call with the same token is refused as a reuse.
pub refresh_una_vez :
    (env : Env) (k : Cripto) (cfg : Config) (plain : Text) (antes despues : ℕ) (s s' s'' : Estado)
    (r : Text × Text)
    → refresh env k cfg antes plain s ≡ (ok r, s')
    → Llamadas env k cfg s' s''
    → (refresh env k cfg despues plain s'').0 ≡ err refresh_token_reused
refresh_una_vez env k cfg plain antes despues s s' s'' r h ls =
    reusado env k cfg despues plain s''
      (llamadas-Q env k cfg (env.sha256_hex plain) (gasta env k cfg antes plain s s' r h) ls)

muerto :
    (t : RefreshToken) (n : ℕ) (family : Uuid) (db : AuthDb)
    → t.revoked_at ≡ some n
    → vivo_de_familia family db t ≡ false
unfolding vivo_de_familia sin_revocar
muerto t n family db rev = ground (arith, rev)

alcanzado :
    (t : RefreshToken) (user family : Uuid) (db : AuthDb)
    → t.revoked_at ≡ none
    → t.user_id ≡ user
    → t.family_id ≡ family
    → vivo_de_familia family (record db { current_user = some user }) t ≡ true
unfolding vivo_de_familia sin_revocar es_usuario
alcanzado t user family db vivo suyo misma = ground (arith, vivo, suyo, misma)

-- The family goes down.
module _ (env : Env) (k : Cripto) (cfg : Config) (ahora : ℕ) where
  familia_revocada :
      (hash : Text) (user family : Uuid) (db : AuthDb) (t : RefreshToken)
      → lookup_refresh_token hash db ≡ some t
      → t.user_id ≡ user
      → t.family_id ≡ family
      → let db' = record db { current_user = some user } in
        Revocado hash (record db' {
          refresh_tokens =
              update_rows (vivo_de_familia family db') (revoked ahora) db.refresh_tokens;
        })
  unfolding lookup_refresh_token revoked
  familia_revocada hash user family db t found suyo misma =
      let db' : AuthDb = record db { current_user = some user } in
      let tras =
        find_row-updated (λ x. text_eq x.token_hash hash) (vivo_de_familia family db')
          (revoked ahora) db.refresh_tokens t found (λ y. refl) in
      elim (Option-cases t.revoked_at) [
        | inr (n, rev) ↦ (t, n, tras ∙ rw (muerto t n family db' rev) refl, rev)
        | inl vivo ↦ (
          revoked ahora t,
          ahora,
          tras ∙ rw (alcanzado t user family db vivo suyo misma) refl,
          refl,
        )
      ]

  tras_reuso :
      (t : RefreshToken) (n : ℕ) (s : Estado) (hash : Text) (otro : RefreshToken)
      → t.revoked_at ≡ some n
      → lookup_refresh_token hash s.db ≡ some otro
      → otro.user_id ≡ t.user_id
      → otro.family_id ≡ t.family_id
      → Q hash ((refresh_de env k cfg ahora t s).1)
  unfolding refresh_de revoke_family en_tx en_db terminar ◌>>=◌ ◌>>◌ set_user
      revoke_tokens_by_family lookup_refresh_token
  tras_reuso t n s hash otro rev found suyo misma =
      rw rev (familia_revocada hash t.user_id t.family_id s.db otro found suyo misma)

-- Where a token that was revoked is used again, every token of its family and its user is refused
-- from then on, after any sequence of other calls at any times.
pub familia_caida :
    (env : Env) (k : Cripto) (cfg : Config) (usado otro : Text) (antes despues : ℕ) (s s' : Estado)
    (t u : RefreshToken) (n : ℕ)
    → lookup_refresh_token (env.sha256_hex usado) s.db ≡ some t
    → t.revoked_at ≡ some n
    → lookup_refresh_token (env.sha256_hex otro) s.db ≡ some u
    → u.user_id ≡ t.user_id
    → u.family_id ≡ t.family_id
    → Llamadas env k cfg ((refresh env k cfg antes usado s).1) s'
    → (refresh env k cfg despues otro s').0 ≡ err refresh_token_reused
familia_caida env k cfg usado otro antes despues s s' t u n hay rev hay' suyo misma ls =
    let hash = env.sha256_hex otro in
    reusado env k cfg despues otro s' (
      llamadas-Q env k cfg hash
        (subst (λ x. Q hash (x.1)) (sym (hallado env k cfg antes usado s t hay))
          (tras_reuso env k cfg antes t n s hash u rev hay' suyo misma))
        ls)
