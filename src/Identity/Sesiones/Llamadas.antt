-- ===== src/Identity/Sesiones/Llamadas.antt =====
-- The operations on sessions and memberships keep a revoked token revoked.
use consorcioabierto.Prelude.{ℕ, ◌+◌, Option, none, some, List, [], ◌∷◌, not, map, find_row}
use consorcioabierto.Prelude.Text.{Text, codes, text_eq}
use consorcioabierto.Action.{no_rows, membership_not_found, membership_inactive}
use consorcioabierto.Env.{Uuid, Env}
use consorcioabierto.Identity.Cache
use consorcioabierto.Identity.Op.{
  Keeps, >>=-Keeps, >>-Keeps, or_fail-Keeps, fail_if-Keeps, lift-Keeps, gets-Keeps, pure-Keeps,
  pure,
}
use consorcioabierto.Identity.Tablas.{RefreshToken, Estado, Config, Cripto}
use consorcioabierto.Identity.Consultas.{
  MembershipForUser, get_session_by_id, list_memberships_for_user, list_roles_for_membership,
  list_scopes_for_membership,
}
use consorcioabierto.Identity.Tokens.{Membership, sign_access_token}
use consorcioabierto.Identity.Membresias.{
  pg_uuid, membership_dto, leer_membership, activa, membership_by_id, membership_from_parts,
  membership_key, guardar, scope_code,
}
use consorcioabierto.Identity.Sesiones.{
  refresh_hash, new_refresh_token, new_pg_uuid, first_membership, revoke_family, emitir, rotar,
}
use consorcioabierto.Identity.Sesiones.Conserva.{
  Q, en_db-Keeps, en_tx-Keeps, set_user-Keeps, revoke_refresh_token-Keeps,
  revoke_tokens_by_family-Keeps, insert_refresh_token-Keeps,
}

module _ (hash : Text) (env : Env) (k : Cripto) (cfg : Config) (ahora : ℕ) where
  abbrev pub R : Estado → Type 0
  R = Q hash

  guardar-Keeps :
      (key : Text) (roles scopes : List Text) → Keeps R (guardar env ahora key roles scopes)
  unfolding guardar
  guardar-Keeps key roles scopes = record { keep = λ s p. p }

  pub leer_membership-Keeps :
      (uid : Uuid) (r : MembershipForUser) → Keeps R (leer_membership env ahora uid r)
  unfolding leer_membership
  leer_membership-Keeps uid r =
      >>=-Keeps R _ _ (gets-Keeps R (λ s. list_roles_for_membership r.membership_id s.db)) (λ roles.
        >>=-Keeps R _ _
          (gets-Keeps R
            (λ s. map (scope_code env ahora) (list_scopes_for_membership r.membership_id s.db)))
          (λ scopes.
            >>-Keeps R _ _ (guardar-Keeps (membership_key env ahora uid r) roles scopes)
              (pure-Keeps R (membership_from_parts env ahora r roles scopes))))

  pub membership_dto-Keeps :
      (uid : Uuid) (r : MembershipForUser) → Keeps R (membership_dto env ahora uid r)
  unfolding membership_dto
  membership_dto-Keeps uid r =
      >>=-Keeps R _ _ (gets-Keeps R (λ s. Cache.get ahora (membership_key env ahora uid r) s.cache))
        go
    where
      go :
          (o : Option (List Text × List Text))
          → Keeps R (elim o [
            | none ↦ leer_membership env ahora uid r
            | some (roles, scopes) ↦ pure (membership_from_parts env ahora r roles scopes)
          ])
      go none = leer_membership-Keeps uid r
      go (some (roles, scopes)) = pure-Keeps R (membership_from_parts env ahora r roles scopes)

  pub activa-Keeps :
      (uid : Uuid) (mid : Text) (rows : List MembershipForUser)
      → Keeps R (activa env ahora uid mid rows)
  unfolding activa
  activa-Keeps uid mid rows =
      >>=-Keeps R _ _
        (or_fail-Keeps R (find_row (λ r. text_eq (env.uuid_string r.membership_id) mid) rows)
          membership_not_found)
        (λ target.
          >>-Keeps R _ _
            (fail_if-Keeps R (not (text_eq target.membership_status (codes "active")))
              membership_inactive)
            (membership_dto-Keeps uid target))

  pub membership_by_id-Keeps : (uid mid : Uuid) → Keeps R (membership_by_id env ahora uid mid)
  unfolding membership_by_id
  membership_by_id-Keeps uid mid =
      >>=-Keeps R _ _ (gets-Keeps R (λ s. list_memberships_for_user uid s.db))
        (λ rows. activa-Keeps uid (env.uuid_string mid) rows)

  pub new_refresh_token-Keeps : Keeps R (new_refresh_token env k cfg ahora)
  unfolding new_refresh_token
  new_refresh_token-Keeps = record { keep = λ s p. p }

  pub new_pg_uuid-Keeps : Keeps R (new_pg_uuid env k cfg ahora)
  unfolding new_pg_uuid
  new_pg_uuid-Keeps = record { keep = λ s p. p }

  pub first_membership-Keeps :
      (ms : List Membership) → Keeps R (first_membership env k cfg ahora ms)
  unfolding first_membership
  first_membership-Keeps [] = let ninguno : Option Uuid = none in pure-Keeps R ninguno
  first_membership-Keeps (m ∷ ms) =
      >>=-Keeps R _ _ (lift-Keeps R (pg_uuid env ahora m.id)) (λ id. pure-Keeps R (some id))

  pub emitir-Keeps : (tok : RefreshToken) → Keeps R (emitir env k cfg ahora tok)
  unfolding emitir
  emitir-Keeps tok = >>=-Keeps R _ _ new_refresh_token-Keeps (λ plain.
      >>=-Keeps R _ _ (lift-Keeps R (pg_uuid env ahora (env.uuid_string tok.user_id))) (λ uid.
        >>-Keeps R _ _
          (en_db-Keeps hash _ (
            insert_refresh_token-Keeps hash env tok.session_id uid
              (refresh_hash env k cfg ahora plain) tok.family_id (ahora + cfg.refresh_token_ttl)))
          (>>=-Keeps R _ _ (gets-Keeps R (λ s. get_session_by_id tok.session_id s.db)) (λ found.
            >>=-Keeps R _ _ (or_fail-Keeps R found no_rows) (λ session.
              >>=-Keeps R _ _ (membership_by_id-Keeps uid session.membership_id) (λ m.
                >>=-Keeps R _ _
                  (lift-Keeps R (sign_access_token env k cfg ahora uid session.membership_id m))
                  (λ access. pure-Keeps R (access, plain))))))))

  pub rotar-Keeps : (tok : RefreshToken) → Keeps R (rotar env k cfg ahora tok)
  unfolding rotar
  rotar-Keeps tok = >>-Keeps R _ _ (en_db-Keeps hash _ (set_user-Keeps hash tok.user_id)) (
      >>-Keeps R _ _ (en_db-Keeps hash _ (revoke_refresh_token-Keeps hash tok.id ahora))
        (emitir-Keeps tok))

  pub revoke_family-Keeps :
      (user family : Uuid) → Keeps R (revoke_family env k cfg ahora user family)
  unfolding revoke_family
  revoke_family-Keeps user family = en_tx-Keeps hash _ (
      >>-Keeps R _ _ (en_db-Keeps hash _ (set_user-Keeps hash user))
        (en_db-Keeps hash _ (revoke_tokens_by_family-Keeps hash family ahora)))
