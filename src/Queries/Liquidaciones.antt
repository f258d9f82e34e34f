-- ===== src/Queries/Liquidaciones.antt =====
-- internal/database/gen/liquidaciones.sql.go: the rows of `liquidaciones`.
use consorcioabierto.Prelude.{
  ℕ, ◌+◌, ◌%◌, Bool, true, Option, none, some, List, [], ◌∷◌, ◌++◌, ◌&&◌, ◌||◌, not, ◌==◌, ltb, leb,
  select, if◌then◌else◌, find_row, any_row, update_rows, count_rows,
}
use consorcioabierto.Prelude.Int.{ℤ, pos}
use consorcioabierto.Prelude.Text.{Text, text_eq, text_ltb, is_empty}
use consorcioabierto.Prelude.Dates.{Date}
use consorcioabierto.Prelude.Sort.{sort_by}
use consorcioabierto.Action.{foreign_key_violation, Action, ok, err, check_violation, out_of_range}
use consorcioabierto.Env.{Uuid, Env}
use consorcioabierto.Store.{Db, Liquidacion, Estado, borrador, anulada, cerrada, estado_eq}

unfoldable pub same_liquidacion : Uuid → Uuid → Db → Liquidacion → Bool
same_liquidacion cid id db r =
    r.tenant_id == db.current_tenant && r.consorcio_id == cid && r.id == id

-- `none` is `pgx.ErrNoRows`.
unfoldable pub get_liquidacion : Uuid → Uuid → Db → Option Liquidacion
unfolding same_liquidacion find_row
get_liquidacion cid id db = find_row (same_liquidacion cid id db) db.liquidaciones

estado_fits : Option Estado → Estado → Bool
estado_fits none e = true
estado_fits (some e) e' = estado_eq e' e

listed : Uuid → Text → Option Estado → Db → Liquidacion → Bool
unfolding text_eq is_empty estado_fits
listed cid periodo estado db r =
    r.tenant_id == db.current_tenant
    && r.consorcio_id == cid
    && (is_empty periodo || text_eq r.periodo periodo)
    && estado_fits estado r.estado

-- ORDER BY periodo DESC, created_at DESC, id DESC
newer_liquidacion : Liquidacion → Liquidacion → Bool
unfolding text_ltb text_eq
newer_liquidacion a b =
    text_ltb b.periodo a.periodo
    || (text_eq a.periodo b.periodo
        && (ltb b.created_at a.created_at || (a.created_at == b.created_at && ltb b.id a.id)))

-- The filter on the state is `none` for the empty string.
unfoldable pub list_liquidaciones : Uuid → Text → Option Estado → Db → List Liquidacion
unfolding listed newer_liquidacion select sort_by
list_liquidaciones cid periodo estado db =
    sort_by newer_liquidacion (select (listed cid periodo estado db) db.liquidaciones)

-- `int32(expectedVersion)` against a version of type INT, which is never negative.
abbrev pub version_is : ℕ → Liquidacion → Bool
version_is expected r = expected % 4294967296 == r.version

-- `version + 1` on INT
unfoldable pub bumps_out_of_range : (Liquidacion → Bool) → List Liquidacion → Bool
bumps_out_of_range p rows = any_row (λ r. p r && leb 2147483647 r.version) rows

-- An UPDATE that sets the state and bumps the version of the rows that fit, and its row count.
unfoldable pub bump_estado : (Liquidacion → Bool) → Estado → Action Db ℕ
unfolding bumps_out_of_range any_row update_rows count_rows
bump_estado p nuevo db =
    if bumps_out_of_range p db.liquidaciones
    then err out_of_range
    else ok (
      count_rows p db.liquidaciones,
      record db {
        liquidaciones =
            update_rows p
              (λ r. record r { estado = nuevo; version = r.version + 1; updated_at = db.now })
              db.liquidaciones;
      },
    )

abbrev pub transition_fits : Uuid → Uuid → Estado → ℕ → Db → Liquidacion → Bool
transition_fits cid id actual expected db r =
    same_liquidacion cid id db r && estado_eq r.estado actual && version_is expected r

unfoldable pub transition_liquidacion : Estado → Uuid → Uuid → Estado → ℕ → Action Db ℕ
unfolding bump_estado same_liquidacion
transition_liquidacion nuevo cid id actual expected db =
    bump_estado (transition_fits cid id actual expected db) nuevo db

abbrev pub anular_fits : Uuid → Estado → ℕ → Db → Liquidacion → Bool
anular_fits id actual expected db r =
    r.tenant_id == db.current_tenant
    && r.id == id
    && estado_eq r.estado actual
    && version_is expected r

unfoldable pub anular_liquidacion : Uuid → Estado → ℕ → Action Db ℕ
unfolding bump_estado
anular_liquidacion id actual expected db =
    bump_estado (anular_fits id actual expected db) anulada db

-- The rows that take part in the partial unique index on (tenant, consorcio, periodo).
abbrev pub is_activa : Estado → Bool
is_activa e = not (estado_eq e anulada) && not (estado_eq e cerrada)

unfoldable pub blocks_periodo : Uuid → Text → Db → Liquidacion → Bool
unfolding text_eq
blocks_periodo cid periodo db r =
    r.tenant_id == db.current_tenant
    && r.consorcio_id == cid
    && text_eq r.periodo periodo
    && is_activa r.estado

unfoldable pub vencimientos_fit : Date → Option Date → Bool
vencimientos_fit v1 none = true
vencimientos_fit v1 (some v2) = leb v1 v2

module _ (env : Env) where
  abbrev pub new_liquidacion : Uuid → Text → Date → Option Date → Db → Liquidacion
  new_liquidacion cid periodo v1 v2 db = record {
    tenant_id = db.current_tenant;
    consorcio_id = cid;
    id = env.gen_random_uuid db.generated;
    periodo = periodo;
    vencimiento_1 = v1;
    vencimiento_2 = v2;
    estado = borrador;
    version = 1;
    total_gastos_cents = pos 0;
    total_distribuido_cents = pos 0;
    unidades_alcanzadas = 0;
    created_at = db.now;
    updated_at = db.now;
  }

  -- ON CONFLICT DO NOTHING returns no row.
  unfoldable pub create_liquidacion :
      Uuid → Text → Date → Option Date → Action Db (Option Liquidacion)
  unfolding blocks_periodo vencimientos_fit any_row
  create_liquidacion cid periodo v1 v2 db =
      if not (vencimientos_fit v1 v2)
      then err check_violation
      else if any_row (blocks_periodo cid periodo db) db.liquidaciones
      then ok (none, db)
      else if not (any_row (λ c. c.tenant_id == db.current_tenant && c.id == cid) db.consorcios)
      then err foreign_key_violation
      else (let row = new_liquidacion cid periodo v1 v2 db in
          ok (
            some row,
            record db {
              liquidaciones = db.liquidaciones ++ row ∷ [];
              generated = db.generated + 1;
            },
          ))

abbrev calculo_fits : Uuid → Db → Liquidacion → Bool
calculo_fits id db r = r.tenant_id == db.current_tenant && r.id == id

unfoldable pub update_liquidacion_calculo : ℤ → ℤ → ℕ → Uuid → Action Db (Unit {0})
unfolding update_rows
update_liquidacion_calculo gastos distribuido alcanzadas id db = ok (
  tt,
  record db {
    liquidaciones =
        update_rows (calculo_fits id db)
          (λ r. record r {
            total_gastos_cents = gastos;
            total_distribuido_cents = distribuido;
            unidades_alcanzadas = alcanzadas;
            updated_at = db.now;
          })
          db.liquidaciones;
  },
)

unfoldable pub vencimientos_row : Uuid → Uuid → ℕ → Db → Liquidacion → Bool
unfolding same_liquidacion
vencimientos_row cid id expected db r =
    same_liquidacion cid id db r && estado_eq r.estado borrador && version_is expected r

unfoldable pub update_liquidacion_vencimientos :
    Date → Option Date → Uuid → Uuid → ℕ → Action Db (Unit {0})
unfolding vencimientos_row vencimientos_fit any_row update_rows
update_liquidacion_vencimientos v1 v2 cid id expected db =
    if any_row (vencimientos_row cid id expected db) db.liquidaciones
      && not (vencimientos_fit v1 v2)
    then err check_violation
    else ok (
      tt,
      record db {
        liquidaciones =
            update_rows (vencimientos_row cid id expected db)
              (λ r. record r { vencimiento_1 = v1; vencimiento_2 = v2; updated_at = db.now })
              db.liquidaciones;
      },
    )
