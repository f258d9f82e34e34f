-- ===== src/Identity/Permisos.antt =====
-- internal/identity/permissions.go: the permissions of each role, and those of several.
use consorcioabierto.Prelude.{Bool, false, List, [], ◌∷◌, ◌++◌, map, any_row, if◌then◌else◌}
use consorcioabierto.Prelude.Text.{Text, codes, text_eq}
pub mod Union
pub mod Lectura

abbrev pub platform_admin : List Text
platform_admin = codes "tenants.read" ∷ codes "tenants.manage" ∷ codes "plan_codes.manage" ∷ []

abbrev pub tenant_admin : List Text
tenant_admin =
    codes "tenant.users.read"
    ∷ codes "tenant.users.manage"
    ∷ codes "consorcios.read"
    ∷ codes "consorcios.manage"
    ∷ codes "ufs.read"
    ∷ codes "ufs.manage"
    ∷ codes "expensas.read"
    ∷ codes "expensas.create"
    ∷ codes "expensas.confirm"
    ∷ codes "expensas.publish"
    ∷ codes "gastos.read"
    ∷ codes "gastos.manage"
    ∷ codes "cobranzas.read"
    ∷ codes "cobranzas.manage"
    ∷ codes "finanzas.read"
    ∷ codes "finanzas.reconcile"
    ∷ codes "proveedores.read"
    ∷ codes "proveedores.manage"
    ∷ codes "documentos.read"
    ∷ codes "documentos.manage"
    ∷ codes "comunicaciones.read"
    ∷ codes "comunicaciones.send"
    ∷ codes "reclamos.read"
    ∷ codes "reclamos.manage"
    ∷ codes "auditoria.read"
    ∷ []

abbrev pub consorcio_admin : List Text
consorcio_admin =
    codes "consorcios.read"
    ∷ codes "consorcios.manage"
    ∷ codes "ufs.read"
    ∷ codes "ufs.manage"
    ∷ codes "expensas.read"
    ∷ codes "expensas.create"
    ∷ codes "expensas.confirm"
    ∷ codes "expensas.publish"
    ∷ codes "gastos.read"
    ∷ codes "gastos.manage"
    ∷ codes "cobranzas.read"
    ∷ codes "cobranzas.manage"
    ∷ codes "finanzas.read"
    ∷ codes "finanzas.reconcile"
    ∷ codes "proveedores.read"
    ∷ codes "proveedores.manage"
    ∷ codes "documentos.read"
    ∷ codes "documentos.manage"
    ∷ codes "comunicaciones.read"
    ∷ codes "comunicaciones.send"
    ∷ codes "reclamos.read"
    ∷ codes "reclamos.manage"
    ∷ codes "auditoria.read"
    ∷ []

abbrev pub tesorero : List Text
tesorero =
    codes "consorcios.read"
    ∷ codes "ufs.read"
    ∷ codes "expensas.read"
    ∷ codes "gastos.read"
    ∷ codes "cobranzas.read"
    ∷ codes "cobranzas.manage"
    ∷ codes "finanzas.read"
    ∷ codes "finanzas.reconcile"
    ∷ codes "proveedores.read"
    ∷ codes "documentos.read"
    ∷ codes "comunicaciones.read"
    ∷ codes "reclamos.read"
    ∷ codes "reclamos.manage"
    ∷ []

abbrev pub auditor : List Text
auditor =
    codes "consorcios.read"
    ∷ codes "ufs.read"
    ∷ codes "expensas.read"
    ∷ codes "gastos.read"
    ∷ codes "cobranzas.read"
    ∷ codes "finanzas.read"
    ∷ codes "proveedores.read"
    ∷ codes "documentos.read"
    ∷ codes "comunicaciones.read"
    ∷ codes "reclamos.read"
    ∷ codes "auditoria.read"
    ∷ []

abbrev pub consorcista : List Text
consorcista =
    codes "ufs.read"
    ∷ codes "expensas.read"
    ∷ codes "cobranzas.read"
    ∷ codes "documentos.read"
    ∷ codes "comunicaciones.read"
    ∷ codes "reclamos.read"
    ∷ []

-- A role that has no entry has no permissions.
unfoldable pub role_permissions : Text → List Text
unfolding text_eq
role_permissions r =
    if text_eq r (codes "platform_admin")
    then platform_admin
    else if text_eq r (codes "tenant_admin")
    then tenant_admin
    else if text_eq r (codes "consorcio_admin")
    then consorcio_admin
    else if text_eq r (codes "tesorero")
    then tesorero
    else if text_eq r (codes "auditor")
    then auditor
    else if text_eq r (codes "consorcista")
    then consorcista
    else []

-- The permissions seen, and the result so far.
pub record Vistos : Type 0 where
  pub seen : List Text
  pub out : List Text

unfoldable pub add_permission : Vistos → Text → Vistos
unfolding any_row text_eq
add_permission v p =
    if any_row (text_eq p) v.seen then v else record { seen = p ∷ v.seen; out = v.out ++ p ∷ [] }

unfoldable pub add_permissions : Vistos → List Text → Vistos
unfolding add_permission
add_permissions v [] = v
add_permissions v (p ∷ ps) = add_permissions (add_permission v p) ps

unfoldable pub add_roles : Vistos → List Text → Vistos
unfolding add_permissions role_permissions
add_roles v [] = v
add_roles v (r ∷ rs) = add_roles (add_permissions v (role_permissions r)) rs

unfoldable pub permissions_for_roles : List Text → List Text
unfolding add_roles
permissions_for_roles roles = (add_roles (record { seen = []; out = [] }) roles).out
