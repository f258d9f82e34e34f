-- ===== src/Identity/Membresias.antt =====
-- internal/identity/auth.go: transactions, and memberships with their roles and scopes.
use consorcioabierto.Prelude.{ℕ, none, some, List, [], ◌∷◌, ◌++◌, not, map, find_row}
use consorcioabierto.Prelude.Text.{Text, codes, text_eq}
use consorcioabierto.Action.{
  Result, ok, err, membership_not_found, membership_inactive, invalid_uuid,
}
use consorcioabierto.Env.{Uuid, Env}
use consorcioabierto.Identity.Op.{Op, pure, gets, fail_if, or_fail, modify, ◌>>=◌, ◌>>◌}
use consorcioabierto.Identity.Cache
use consorcioabierto.Identity.Tablas.{AuthDb, Estado, RoleScope}
use consorcioabierto.Identity.Consultas.{
  MembershipForUser, list_memberships_for_user, list_roles_for_membership,
  list_scopes_for_membership,
}
use consorcioabierto.Identity.Tokens.{Membership}

con_db : {A : Type 0} → Estado → Result A × AuthDb → Result A × Estado
con_db s (r, db) = (r, record s { db = db })

-- A statement on the tables.
unfoldable pub en_db : {A : Type 0} → Op AuthDb A → Op Estado A
unfolding con_db
en_db m s = con_db s (m s.db)

-- At the end of a transaction the user is forgotten; at an error the tables are as they were. The
-- memory of the process is not rolled back.
unfoldable pub terminar : {A : Type 0} → AuthDb → Result A × Estado → Result A × Estado
terminar antes (ok a, s) = (ok a, record s { db = record s.db { current_user = none } })
terminar antes (err e, s) = (err e, record s { db = antes })

unfoldable pub en_tx : {A : Type 0} → Op Estado A → Op Estado A
unfolding terminar
en_tx m s = terminar s.db (m s)

descartar : {A : Type 0} → AuthDb → Result A × Estado → Result A × Estado
descartar antes (r, s) = (r, record s { db = antes })

-- A transaction that is only read in, and that ends in a rollback.
unfoldable pub en_consulta : {A : Type 0} → Op Estado A → Op Estado A
unfolding descartar
en_consulta m s = descartar s.db (m s)

-- One call for each element, the results in order.
unfoldable pub por_cada : {A B : Type 0} → (A → Op Estado B) → List A → Op Estado (List B)
por_cada f [] = pure []
por_cada f (x ∷ xs) = do y ← f x; ys ← por_cada f xs; pure (y ∷ ys)

module _ (env : Env) (ahora : ℕ) where
  unfoldable pub pg_uuid : Text → Result Uuid
  pg_uuid s = elim (env.scan_uuid s) [ none ↦ err invalid_uuid | some u ↦ ok u ]

  unfoldable pub scope_code : RoleScope → Text
  scope_code sc = elim sc.scope_id [
    | none ↦ sc.scope_type
    | some id ↦ sc.scope_type ++ codes ":" ++ env.uuid_string id
  ]

  unfoldable pub membership_from_parts : MembershipForUser → List Text → List Text → Membership
  membership_from_parts r roles scopes = record {
    id = env.uuid_string r.membership_id;
    tenant_id = env.uuid_string r.tenant_id;
    tenant_name = r.tenant_name;
    tenant_status = r.tenant_status;
    status = r.membership_status;
    roles = roles;
    scopes = scopes;
  }

  unfoldable pub membership_key : Uuid → MembershipForUser → Text
  unfolding Cache.membership_cache_key
  membership_key uid r =
      Cache.membership_cache_key (env.uuid_string uid) (env.uuid_string r.membership_id)

  unfoldable pub guardar : Text → List Text → List Text → Op Estado (Unit {0})
  unfolding Cache.set
  guardar key roles scopes =
      modify (λ s. record s { cache = Cache.set ahora key roles scopes s.cache })

  -- What the tables say, kept in the cache.
  unfoldable pub leer_membership : Uuid → MembershipForUser → Op Estado Membership
  unfolding list_roles_for_membership list_scopes_for_membership scope_code membership_from_parts
      membership_key guardar
  leer_membership uid r = do
    roles ← gets (λ s. list_roles_for_membership r.membership_id s.db)
    scopes ← gets (λ s. map (scope_code) (list_scopes_for_membership r.membership_id s.db))
    guardar (membership_key uid r) roles scopes
    pure (membership_from_parts r roles scopes)

  unfoldable pub membership_dto : Uuid → MembershipForUser → Op Estado Membership
  unfolding Cache.get membership_key membership_from_parts leer_membership
  membership_dto uid r = do
    hit ← gets (λ s. Cache.get ahora (membership_key uid r) s.cache)
    elim hit [
      | none ↦ leer_membership uid r
      | some (roles, scopes) ↦ pure (membership_from_parts r roles scopes)
    ]

  -- The membership that a text names, if it is active.
  unfoldable pub activa : Uuid → Text → List MembershipForUser → Op Estado Membership
  unfolding find_row text_eq membership_dto
  activa uid mid rows = do
    target ←
        or_fail (find_row (λ r. text_eq (env.uuid_string r.membership_id) mid) rows)
          membership_not_found
    fail_if (not (text_eq target.membership_status (codes "active"))) membership_inactive
    membership_dto uid target

  unfoldable pub membership_by_id : Uuid → Uuid → Op Estado Membership
  unfolding list_memberships_for_user activa
  membership_by_id uid mid = do
    rows ← gets (λ s. list_memberships_for_user uid s.db)
    activa uid (env.uuid_string mid) rows
