-- ===== src/Identity/Uso/Refresco.antt =====
-- The operations on a session keep a revoked token revoked.
use consorcioabierto.Prelude.{ℕ, Bool, true, false, Option, none, some, refl, ltb, if◌then◌else◌}
use consorcioabierto.Prelude.Text.{Text}
use consorcioabierto.Action.{
  no_rows, invalid_refresh_token, refresh_token_expired, refresh_token_reused,
}
use consorcioabierto.Env.{Env}
use consorcioabierto.Identity.Op.{
  Keeps, >>=-Keeps, >>-Keeps, or_fail-Keeps, lift-Keeps, gets-Keeps, pure-Keeps, fail-Keeps, pure,
  fail, ◌>>◌,
}
use consorcioabierto.Identity.Tablas.{RefreshToken, Config, Claims, Cripto}
use consorcioabierto.Identity.Consultas.{
  set_user, revoke_refresh_token, revoke_session, get_user_by_id, lookup_refresh_token,
}
use consorcioabierto.Identity.Membresias.{en_db, en_tx, en_consulta, pg_uuid}
use consorcioabierto.Identity.Sesiones.{
  refresh_hash, select_tenant, refresh_de, refresh, logout_de, logout, membership_de, me,
  list_memberships, permissions_for_claims, rotar, revoke_family,
}
use consorcioabierto.Identity.Sesiones.Conserva.{
  Q, en_db-Keeps, en_tx-Keeps, restaura-Keeps, set_user-Keeps, revoke_refresh_token-Keeps,
  revoke_session-Keeps,
}
use consorcioabierto.Identity.Sesiones.Llamadas.{rotar-Keeps, revoke_family-Keeps}

module _ (hash : Text) (env : Env) (k : Cripto) (cfg : Config) (ahora : ℕ) where
  refresh_de-Keeps : (tok : RefreshToken) → Keeps (Q hash) (refresh_de env k cfg ahora tok)
  unfolding refresh_de
  refresh_de-Keeps tok = go tok.revoked_at
    where
      vencido :
          (b : Bool)
          → Keeps
              (Q hash)
              (if b then fail refresh_token_expired else en_tx (rotar env k cfg ahora tok))
      vencido true = fail-Keeps (Q hash) (Text × Text) refresh_token_expired
      vencido false = en_tx-Keeps hash _ (rotar-Keeps hash env k cfg ahora tok)

      go :
          (o : Option ℕ)
          → Keeps {A = Text × Text} (Q hash) (elim o [
            | some n ↦
                revoke_family env k cfg ahora tok.user_id tok.family_id >> fail refresh_token_reused
            | none ↦
                if ltb tok.expires_at ahora
                then fail refresh_token_expired
                else en_tx (rotar env k cfg ahora tok)
          ])
      go (some n) =
          >>-Keeps (Q hash) _ _ (revoke_family-Keeps hash env k cfg ahora tok.user_id tok.family_id)
            (fail-Keeps (Q hash) (Text × Text) refresh_token_reused)
      go none = vencido (ltb tok.expires_at ahora)

  pub refresh-Keeps : (plain : Text) → Keeps (Q hash) (refresh env k cfg ahora plain)
  unfolding refresh
  refresh-Keeps plain =
      >>=-Keeps (Q hash) _ _
        (gets-Keeps (Q hash) (λ s. lookup_refresh_token (refresh_hash env k cfg ahora plain) s.db))
        (λ found.
          >>=-Keeps (Q hash) _ _ (or_fail-Keeps (Q hash) found invalid_refresh_token)
            (λ tok. refresh_de-Keeps tok))

  logout_de-Keeps : (tok : RefreshToken) → Keeps (Q hash) (logout_de env k cfg ahora tok)
  unfolding logout_de
  logout_de-Keeps tok = go tok.revoked_at
    where
      go :
          (o : Option ℕ)
          → Keeps {A = Unit {0}} (Q hash) (elim o [
            | some n ↦ pure tt
            | none ↦ en_tx (
                en_db (set_user tok.user_id)
                >> en_db (revoke_refresh_token tok.id ahora)
                >> en_db (revoke_session tok.session_id ahora))
          ])
      go (some n) = let listo : Unit {0} = tt in pure-Keeps (Q hash) listo
      go none = en_tx-Keeps hash _ (
          >>-Keeps (Q hash) _ _
            (>>-Keeps (Q hash) _ _ (en_db-Keeps hash _ (set_user-Keeps hash tok.user_id))
              (en_db-Keeps hash _ (revoke_refresh_token-Keeps hash tok.id ahora)))
            (en_db-Keeps hash _ (revoke_session-Keeps hash tok.session_id ahora)))

  pub logout-Keeps : (plain : Text) → Keeps (Q hash) (logout env k cfg ahora plain)
  unfolding logout
  logout-Keeps plain =
      >>=-Keeps (Q hash) _ _
        (gets-Keeps (Q hash) (λ s. lookup_refresh_token (refresh_hash env k cfg ahora plain) s.db))
        go
    where
      go :
          (o : Option RefreshToken)
          → Keeps {A = Unit {0}}
              (Q hash)
              (elim o [ none ↦ pure tt | some tok ↦ logout_de env k cfg ahora tok ])
      go none = let listo : Unit {0} = tt in pure-Keeps (Q hash) listo
      go (some tok) = logout_de-Keeps tok

  pub select_tenant-Keeps : (u m : Text) → Keeps (Q hash) (select_tenant env k cfg ahora u m)
  unfolding select_tenant en_consulta
  select_tenant-Keeps u m =
      >>=-Keeps (Q hash) _ _ (lift-Keeps (Q hash) (pg_uuid env ahora u)) (λ uid.
        >>=-Keeps (Q hash) _ _ (lift-Keeps (Q hash) (pg_uuid env ahora m)) (λ mid.
          >>=-Keeps (Q hash) _ _ (gets-Keeps (Q hash) (λ s. get_user_by_id uid s.db)) (λ found.
            >>=-Keeps (Q hash) _ _ (or_fail-Keeps (Q hash) found no_rows)
              (λ user. restaura-Keeps hash _ (λ s. refl)))))

  pub me-Keeps : (c : Claims) → Keeps (Q hash) (me env k cfg ahora c)
  unfolding me en_consulta
  me-Keeps c = >>=-Keeps (Q hash) _ _ (lift-Keeps (Q hash) (pg_uuid env ahora c.subject)) (λ uid.
      >>=-Keeps (Q hash) _ _ (gets-Keeps (Q hash) (λ s. get_user_by_id uid s.db)) (λ found.
        >>=-Keeps (Q hash) _ _ (or_fail-Keeps (Q hash) found no_rows)
          (λ user. restaura-Keeps hash _ (λ s. refl))))

  pub list_memberships-Keeps : (c : Claims) → Keeps (Q hash) (list_memberships env k cfg ahora c)
  unfolding list_memberships en_consulta
  list_memberships-Keeps c =
      >>=-Keeps (Q hash) _ _ (lift-Keeps (Q hash) (pg_uuid env ahora c.subject))
        (λ uid. restaura-Keeps hash _ (λ s. refl))

  pub permissions_for_claims-Keeps :
      (c : Claims) → Keeps (Q hash) (permissions_for_claims env k cfg ahora c)
  unfolding permissions_for_claims en_consulta
  permissions_for_claims-Keeps c =
      >>=-Keeps (Q hash) _ _ (lift-Keeps (Q hash) (pg_uuid env ahora c.subject)) (λ uid.
        >>=-Keeps (Q hash) _ _ (lift-Keeps (Q hash) (membership_de env k cfg ahora c))
          (λ mid. restaura-Keeps hash _ (λ s. refl)))
