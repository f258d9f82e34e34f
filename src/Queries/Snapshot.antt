-- ===== src/Queries/Snapshot.antt =====
-- internal/database/gen/liquidaciones.sql.go: the snapshot tables of a settlement.
use consorcioabierto.Prelude.{
  ℕ, Bool, Option, none, some, List, [], ◌∷◌, ◌++◌, ◌&&◌, not, ◌==◌, if◌then◌else◌, select, any_row,
}
use consorcioabierto.Prelude.Int.{ℤ, pos, leb_ℤ, ltb_ℤ}
use consorcioabierto.Prelude.Text.{Text}
use consorcioabierto.Action.{Action, ok, err, check_violation, unique_violation}
use consorcioabierto.Env.{Uuid}
use consorcioabierto.Store.{Db, LiquidacionGasto, LiquidacionItem, LiquidacionUnidad}

abbrev pub unidad_of : Uuid → Db → LiquidacionUnidad → Bool
unidad_of lid db r = r.tenant_id == db.current_tenant && r.liquidacion_id == lid

unfoldable pub delete_liquidacion_gastos : Uuid → Action Db (Unit {0})
unfolding select
delete_liquidacion_gastos lid db = ok (
  tt,
  record db {
    liquidacion_gastos =
        select (λ r. not (r.tenant_id == db.current_tenant && r.liquidacion_id == lid))
          db.liquidacion_gastos;
  },
)

unfoldable pub delete_liquidacion_items : Uuid → Action Db (Unit {0})
unfolding select
delete_liquidacion_items lid db = ok (
  tt,
  record db {
    liquidacion_items =
        select (λ r. not (r.tenant_id == db.current_tenant && r.liquidacion_id == lid))
          db.liquidacion_items;
  },
)

unfoldable pub delete_liquidacion_unidades : Uuid → Action Db (Unit {0})
unfolding select
delete_liquidacion_unidades lid db = ok (
  tt,
  record db {
    liquidacion_unidades = select (λ r. not (unidad_of lid db r)) db.liquidacion_unidades;
  },
)

unfoldable pub get_liquidacion_unidades : Uuid → Db → List LiquidacionUnidad
unfolding select
get_liquidacion_unidades lid db = select (unidad_of lid db) db.liquidacion_unidades

-- The checks are `importe_cents > 0` and the primary key (tenant, liquidacion, gasto).
unfoldable pub insert_liquidacion_gasto : Uuid → Uuid → Uuid → ℤ → Action Db (Unit {0})
unfolding any_row
insert_liquidacion_gasto lid gasto concepto importe db =
    if leb_ℤ importe (pos 0)
    then err check_violation
    else if any_row
        (λ r. r.tenant_id == db.current_tenant && r.liquidacion_id == lid && r.gasto_id == gasto)
        db.liquidacion_gastos
    then err unique_violation
    else (let row : LiquidacionGasto = record {
      tenant_id = db.current_tenant;
      liquidacion_id = lid;
      gasto_id = gasto;
      concepto_id = concepto;
      importe_cents = importe;
    } in
        ok (tt, record db { liquidacion_gastos = db.liquidacion_gastos ++ row ∷ [] }))

-- `importe_cents >= 0`, a concept that is not NULL, and the key (tenant, liquidacion, concepto).
unfoldable pub insert_liquidacion_item : Uuid → Option Uuid → Text → ℤ → Action Db (Unit {0})
unfolding any_row
insert_liquidacion_item lid none regla importe db = err check_violation
insert_liquidacion_item lid (some concepto) regla importe db =
    if ltb_ℤ importe (pos 0)
    then err check_violation
    else if any_row
        (λ r.
          r.tenant_id == db.current_tenant && r.liquidacion_id == lid && r.concepto_id == concepto)
        db.liquidacion_items
    then err unique_violation
    else (let row : LiquidacionItem = record {
      tenant_id = db.current_tenant;
      liquidacion_id = lid;
      concepto_id = concepto;
      regla_aplicada = regla;
      importe_cents = importe;
    } in
        ok (tt, record db { liquidacion_items = db.liquidacion_items ++ row ∷ [] }))

-- `total_cents >= 0`, a unit that is not NULL, and the key (tenant, liquidacion, unidad).
unfoldable pub insert_liquidacion_unidad : Uuid → Option Uuid → Text → ℕ → ℤ → Action Db (Unit {0})
unfolding any_row
insert_liquidacion_unidad lid none codigo coeficiente total db = err check_violation
insert_liquidacion_unidad lid (some unidad) codigo coeficiente total db =
    if ltb_ℤ total (pos 0)
    then err check_violation
    else if any_row (λ r. unidad_of lid db r && r.unidad_id == unidad) db.liquidacion_unidades
    then err unique_violation
    else (let row : LiquidacionUnidad = record {
      tenant_id = db.current_tenant;
      liquidacion_id = lid;
      unidad_id = unidad;
      codigo = codigo;
      coeficiente = coeficiente;
      total_cents = total;
    } in
        ok (tt, record db { liquidacion_unidades = db.liquidacion_unidades ++ row ∷ [] }))
