-- ===== src/Queries/Gastos.antt =====
-- internal/database/gen/gastos.sql.go and ufs.sql.go: what a calculation reads.
use consorcioabierto.Prelude.{
  Bool, true, false, Option, none, some, List, ◌&&◌, ◌||◌, ◌==◌, ltb, select, find_row, take,
}
use consorcioabierto.Prelude.Text.{Text, text_eq, text_ltb, is_empty}
use consorcioabierto.Prelude.Dates.{format_date}
use consorcioabierto.Prelude.Sort.{sort_by}
use consorcioabierto.Env.{Uuid}
use consorcioabierto.Store.{Db, Gasto, Unidad, UnidadEstado, activa, inactiva}

-- `$3::UUID IS NULL OR proveedor_id = $3::UUID`
proveedor_fits : Option Uuid → Option Uuid → Bool
proveedor_fits none stored = true
proveedor_fits (some p) none = false
proveedor_fits (some p) (some q) = p == q

gasto_fits : Uuid → Text → Option Uuid → Db → Gasto → Bool
unfolding proveedor_fits
gasto_fits cid mes proveedor db g =
    g.tenant_id == db.current_tenant
    && g.consorcio_id == cid
    && (is_empty mes || text_eq (take 7 (format_date g.fecha)) mes)
    && proveedor_fits proveedor g.proveedor_id

-- ORDER BY fecha DESC, created_at DESC, id DESC
newer_gasto : Gasto → Gasto → Bool
newer_gasto a b =
    ltb b.fecha a.fecha
    || (a.fecha == b.fecha
        && (ltb b.created_at a.created_at || (a.created_at == b.created_at && ltb b.id a.id)))

unfoldable pub list_gastos : Uuid → Text → Option Uuid → Db → List Gasto
unfolding gasto_fits newer_gasto select sort_by is_empty text_eq format_date
list_gastos cid mes proveedor db =
    sort_by newer_gasto (select (gasto_fits cid mes proveedor db) db.gastos)

abbrev pub is_activa : UnidadEstado → Bool
is_activa activa = true
is_activa inactiva = false

unidad_fits : Uuid → Db → Unidad → Bool
unidad_fits cid db u =
    u.tenant_id == db.current_tenant && u.consorcio_id == cid && is_activa u.estado

codigo_less : Unidad → Unidad → Bool
codigo_less a b = text_ltb a.codigo b.codigo || (text_eq a.codigo b.codigo && ltb a.id b.id)

-- ORDER BY codigo ASC, id ASC; `ListUnidades` with `Estado: "activa"`
unfoldable pub list_unidades_activas : Uuid → Db → List Unidad
unfolding unidad_fits codigo_less select sort_by text_ltb text_eq
list_unidades_activas cid db = sort_by codigo_less (select (unidad_fits cid db) db.unidades)

unfoldable pub get_unidad : Uuid → Uuid → Db → Option Unidad
unfolding find_row
get_unidad cid id db =
    find_row (λ u. u.tenant_id == db.current_tenant && u.consorcio_id == cid && u.id == id)
      db.unidades
