-- ===== src/Pruebas/Identity.antt =====
-- Sessions, permissions and the cache run on concrete data.
use consorcioabierto.Prelude.{
  ◌++◌, ℕ, ◌+◌, ◌≤◌, true, false, ◌≡◌, refl, some, none, List, [], ◌∷◌, leb, any_row, if◌then◌else◌,
}
use consorcioabierto.Prelude.Int.{pos, leb_ℤ}
use consorcioabierto.Prelude.Text.{Text, codes, text_eq}
use consorcioabierto.Action.{
  Result, ok, err, token_rechazado, invalid_mfa_token, refresh_token_reused,
}
use consorcioabierto.Env.{UuidRoundTrip}
use consorcioabierto.Identity.Cache
use consorcioabierto.Identity.Jwt.{unsigned, sign_jwt}
use consorcioabierto.Identity.Cache.Vigencia.{
  Escritura, tras_escrituras, ultima, reciente, get-reciente,
}
use consorcioabierto.Identity.Permisos.{permissions_for_roles}
use consorcioabierto.Identity.Permisos.Union.{
  tiene, veces, alguno_otorga, permissions_for_roles-union,
}
use consorcioabierto.Identity.Permisos.Lectura.{es_lectura, es_gestor, escritura_exige_gestor}
use consorcioabierto.Identity.Tablas.{Claims, RefreshToken, AuthDb, Estado, Config}
use consorcioabierto.Identity.Consultas.{
  lookup_refresh_token, set_user, revoke_refresh_token, revoked, insert_refresh_token,
  get_session_by_id, list_memberships_for_user, list_roles_for_membership,
  list_scopes_for_membership, es_usuario,
}
use consorcioabierto.Identity.Tokens.{
  Membership, access_claims, sign_access_token, sign_mfa_token, mfa_claims, verify_access_token,
}
use consorcioabierto.Identity.Sesiones.{
  refresh, logout, refresh_hash, refresh_de, rotar, emitir, new_refresh_token,
}
use consorcioabierto.Identity.Membresias.{
  en_tx, en_db, terminar, pg_uuid, membership_by_id, activa, membership_dto, membership_key,
  leer_membership, guardar, membership_from_parts, scope_code,
}
use consorcioabierto.Identity.Mfa.{mfa_subject}
use consorcioabierto.Identity.Rotacion.{ninguna, otra, sale, refresh_una_vez, familia_caida}
use consorcioabierto.Identity.Firma.{access_token-verify, mfa_token-subject}
use consorcioabierto.Pruebas.Datos.{env_de_prueba}
use consorcioabierto.Pruebas.Firma.{cripto_de_prueba, leyes_de_prueba}
use consorcioabierto.Identity.Op.{◌>>=◌, ◌>>◌}

permissions_for_roles-union_example :
    let roles = codes "auditor" ∷ codes "tesorero" ∷ codes "auditor" ∷ [] in
    (tiene (codes "cobranzas.manage") (permissions_for_roles roles)
      ≡ alguno_otorga (codes "cobranzas.manage") roles)
    × (veces (codes "cobranzas.manage") (permissions_for_roles roles) ≤ 1)
permissions_for_roles-union_example =
    permissions_for_roles-union (codes "auditor" ∷ codes "tesorero" ∷ codes "auditor" ∷ [])
      (codes "cobranzas.manage")

escritura_exige_gestor_example :
    any_row es_gestor (codes "consorcista" ∷ codes "tesorero" ∷ []) ≡ true
unfolding permissions_for_roles any_row es_lectura
escritura_exige_gestor_example =
    escritura_exige_gestor (codes "consorcista" ∷ codes "tesorero" ∷ []) (codes "cobranzas.manage")
      refl refl

abbrev escrituras : List Escritura
escrituras =
    record { cuando = 20; key = codes "u:m"; roles = codes "auditor" ∷ []; scopes = [] }
    ∷ record { cuando = 10; key = codes "u:m"; roles = codes "tesorero" ∷ []; scopes = [] }
    ∷ []

get-reciente_example : Cache.get 25 (codes "u:m") (tras_escrituras (pos 30) escrituras) ≡ (
    if leb_ℤ (pos 30) (pos 0) then none else reciente (pos 30) 25 (ultima (codes "u:m") escrituras))
get-reciente_example = get-reciente (pos 30) escrituras 25 (codes "u:m")

abbrev configuracion : Config
configuracion = record {
  base_url = codes "https://a";
  access_token_ttl = 900;
  refresh_token_ttl = 5000;
  mfa_token_ttl = 300;
  login_max_attempts = 5;
  login_attempt_window = 600;
  con_clave = true;
}

-- A user with one membership, and two tokens of one family.
abbrev ficha : ℕ → Text → RefreshToken
ficha n hash = record {
  id = n;
  session_id = 40;
  user_id = 1;
  token_hash = hash;
  family_id = 60;
  expires_at = 5000;
  revoked_at = none;
}

abbrev tablas_de_prueba : AuthDb
tablas_de_prueba = record {
  current_user = none;
  generated = 0;
  users =
      record {
        id = 1;
        email_normalized = codes "ana@a";
        password_hash = codes "clave";
        name = codes "Ana";
        status = codes "active";
        mfa_enabled = false;
        created_at = 0;
        updated_at = 0;
        mfa_secret = none;
      }
      ∷ [];
  tenants = record { id = 7; name = codes "Uno"; status = codes "active" } ∷ [];
  memberships =
      record { id = 5; user_id = 1; tenant_id = 7; status = codes "active"; created_at = 0 } ∷ [];
  roles = record { id = 8; code = codes "auditor"; label = codes "Auditor" } ∷ [];
  membership_roles = record { id = 9; membership_id = 5; role_id = 8 } ∷ [];
  role_scopes = [];
  sessions =
      record {
        id = 40;
        user_id = 1;
        membership_id = 5;
        session_key = 41;
        expires_at = 5000;
        revoked_at = none;
      }
      ∷ [];
  refresh_tokens = ficha 50 (codes "uno") ∷ ficha 51 (codes "dos") ∷ [];
  login_attempts = [];
}

abbrev estado_de_prueba : Estado
estado_de_prueba = record {
  db = tablas_de_prueba;
  cache = record { ttl = pos 30; items = λ key. none };
  sorteos = 0;
}

abbrev renovar : ℕ → Text → Estado → Result (Text × Text) × Estado
renovar = refresh env_de_prueba cripto_de_prueba configuracion

abbrev auditora : Membership
auditora = record {
  id = 5 ∷ [];
  tenant_id = 7 ∷ [];
  tenant_name = codes "Uno";
  tenant_status = codes "active";
  status = codes "active";
  roles = codes "auditor" ∷ [];
  scopes = [];
}

abbrev firmado : Claims → Text
firmado c = let m = unsigned cripto_de_prueba c in m ++ codes "." ++ cripto_de_prueba.b64url m

abbrev emitido : Text × Text
emitido = (
  firmado (access_claims env_de_prueba cripto_de_prueba configuracion 100 1 5 auditora),
  500 ∷ [],
)

abbrev renovado : Estado
renovado = (renovar 100 (codes "uno") estado_de_prueba).1

-- The new token is used to leave.
abbrev tras_salir : Estado
tras_salir = (logout env_de_prueba cripto_de_prueba configuracion 150 (500 ∷ []) renovado).1

renovado_con_uno : renovar 100 (codes "uno") estado_de_prueba ≡ (ok emitido, renovado)
unfolding refresh refresh_hash refresh_de rotar emitir new_refresh_token en_tx en_db terminar
    pg_uuid membership_by_id activa membership_dto membership_key leer_membership guardar
    membership_from_parts scope_code lookup_refresh_token set_user revoke_refresh_token revoked
    insert_refresh_token get_session_by_id list_memberships_for_user list_roles_for_membership
    list_scopes_for_membership es_usuario sign_access_token sign_jwt access_claims Cache.get
    Cache.set Cache.membership_cache_key text_eq ◌>>=◌ ◌>>◌
renovado_con_uno = refl

refresh_una_vez_example : (renovar 200 (codes "uno") tras_salir).0 ≡ err refresh_token_reused
refresh_una_vez_example =
    refresh_una_vez env_de_prueba cripto_de_prueba configuracion (codes "uno") 100 200
      estado_de_prueba renovado tras_salir emitido renovado_con_uno
      (otra ninguna (sale 150 (500 ∷ [])))

-- The first token is used up.
abbrev con_reuso : Estado
con_reuso = record estado_de_prueba {
  db = record tablas_de_prueba {
    refresh_tokens =
        record (ficha 50 (codes "uno")) { revoked_at = some 90 } ∷ ficha 51 (codes "dos") ∷ [];
  };
}

abbrev tras_reuso : Estado
tras_reuso = (renovar 100 (codes "uno") con_reuso).1

hay_uno :
    lookup_refresh_token (codes "uno") con_reuso.db
    ≡ some (record (ficha 50 (codes "uno")) { revoked_at = some 90 })
unfolding lookup_refresh_token text_eq
hay_uno = refl

hay_dos : lookup_refresh_token (codes "dos") con_reuso.db ≡ some (ficha 51 (codes "dos"))
unfolding lookup_refresh_token text_eq
hay_dos = refl

familia_caida_example : (renovar 300 (codes "dos") tras_reuso).0 ≡ err refresh_token_reused
familia_caida_example =
    familia_caida env_de_prueba cripto_de_prueba configuracion (codes "uno") (codes "dos") 100 300
      con_reuso tras_reuso (record (ficha 50 (codes "uno")) { revoked_at = some 90 })
      (ficha 51 (codes "dos")) 90 hay_uno refl hay_dos refl refl ninguna

abbrev de_acceso : Text
de_acceso = emitido.0

abbrev de_segundo_factor : Text
de_segundo_factor = firmado (mfa_claims env_de_prueba cripto_de_prueba configuracion 100 (1 ∷ []))

acceso_firmado :
    sign_access_token env_de_prueba cripto_de_prueba configuracion 100 1 5 auditora ≡ ok de_acceso
unfolding sign_access_token sign_jwt
acceso_firmado = refl

mfa_firmado :
    sign_mfa_token env_de_prueba cripto_de_prueba configuracion 100 (1 ∷ []) ≡ ok de_segundo_factor
unfolding sign_mfa_token sign_jwt
mfa_firmado = refl

access_token-verify_example :
    verify_access_token env_de_prueba cripto_de_prueba configuracion 1000 de_acceso ≡ (
      if leb (100 + 900) 1000
      then err token_rechazado
      else ok (access_claims env_de_prueba cripto_de_prueba configuracion 100 1 5 auditora))
access_token-verify_example =
    access_token-verify env_de_prueba cripto_de_prueba configuracion 100 1000 1 5 auditora de_acceso
      leyes_de_prueba acceso_firmado

ids_de_prueba : UuidRoundTrip env_de_prueba
ids_de_prueba u = refl

mfa_token-subject_example :
    (mfa_subject env_de_prueba cripto_de_prueba configuracion 200 de_segundo_factor
      ≡ (if leb (100 + 300) 200 then err invalid_mfa_token else ok 1))
    × (mfa_subject env_de_prueba cripto_de_prueba configuracion 200 de_acceso
        ≡ err invalid_mfa_token)
mfa_token-subject_example =
    mfa_token-subject env_de_prueba cripto_de_prueba configuracion 100 200 1 1 5 auditora
      de_segundo_factor de_acceso leyes_de_prueba ids_de_prueba mfa_firmado acceso_firmado
