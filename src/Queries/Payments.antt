-- ===== src/Queries/Payments.antt =====
-- internal/database/gen/cobranzas.sql.go: payments, allocations and intents.
pub mod Insert
use consorcioabierto.Prelude.{
  ℕ, ◌+◌, Bool, false, Option, none, some, List, [], ◌∷◌, ◌++◌, ◌&&◌, ◌||◌, not, ◌==◌, ltb,
  if◌then◌else◌, select, any_row, find_row, update_rows, count_rows,
}
use consorcioabierto.Prelude.Int.{ℤ, pos, leb_ℤ}
use consorcioabierto.Prelude.Dates.{Date}
use consorcioabierto.Prelude.Text.{Text, codes, text_eq}
use consorcioabierto.Prelude.Sort.{sort_by}
use consorcioabierto.Action.{
  Action, ok, err, check_violation, unique_violation, foreign_key_violation, referencia_unique,
  idem_key_unique,
}
use consorcioabierto.Env.{Uuid, Env}
use consorcioabierto.Store.{Db, Payment, PaymentAllocation, PaymentEstado}

abbrev pub same_payment : Uuid → Db → Payment → Bool
same_payment id db p = p.tenant_id == db.current_tenant && p.id == id

unfoldable pub get_cobranza : Uuid → Db → Option Payment
unfolding find_row
get_cobranza id db = find_row (same_payment id db) db.payments

unfoldable pub update_cobranza_estado : PaymentEstado → Option Text → Uuid → Action Db (Unit {0})
unfolding update_rows
update_cobranza_estado estado motivo id db = ok (
  tt,
  record db {
    payments =
        update_rows (same_payment id db)
          (λ p. record p { estado = estado; motivo_rechazo = motivo }) db.payments;
  },
)

abbrev pub allocation_of : Uuid → Db → PaymentAllocation → Bool
allocation_of id db a = a.tenant_id == db.current_tenant && a.payment_id == id

-- ORDER BY created_at ASC, charge_id ASC
abbrev older_allocation : PaymentAllocation → PaymentAllocation → Bool
older_allocation a b =
    ltb a.created_at b.created_at || (a.created_at == b.created_at && ltb a.charge_id b.charge_id)

unfoldable pub list_payment_allocations_by_payment : Uuid → Db → List PaymentAllocation
unfolding select sort_by
list_payment_allocations_by_payment id db =
    sort_by older_allocation (select (allocation_of id db) db.payment_allocations)

unfoldable pub delete_payment_allocations_by_payment : Uuid → Action Db ℕ
unfolding select count_rows
delete_payment_allocations_by_payment id db = ok (
  count_rows (allocation_of id db) db.payment_allocations,
  record db {
    payment_allocations = select (λ a. not (allocation_of id db a)) db.payment_allocations;
  },
)

abbrev pub allocation_exists : Uuid → Uuid → Db → Bool
allocation_exists payment charge db =
    any_row (λ a. allocation_of payment db a && a.charge_id == charge) db.payment_allocations

-- The foreign key to the users.
abbrev pub user_en : Uuid → Db → Bool
user_en user db = any_row (λ u. u == user) db.users

abbrev pub parents_exist : Uuid → Uuid → Uuid → Db → Bool
parents_exist payment charge created_by db =
    user_en created_by db
    && any_row (same_payment payment db) db.payments
    && any_row (λ c. c.tenant_id == db.current_tenant && c.id == charge) db.charges

-- The check `amount_cents > 0`, the foreign keys to the payment, the charge and the user, and the primary key
-- (tenant, payment, charge).
unfoldable pub insert_payment_allocation : Uuid → Uuid → ℤ → Uuid → Action Db PaymentAllocation
unfolding any_row
insert_payment_allocation payment charge amount created_by db =
    if leb_ℤ amount (pos 0)
    then err check_violation
    else if allocation_exists payment charge db
    then err unique_violation
    else if not (parents_exist payment charge created_by db)
    then err foreign_key_violation
    else (let row : PaymentAllocation = record {
      tenant_id = db.current_tenant;
      payment_id = payment;
      charge_id = charge;
      amount_cents = amount;
      created_by = created_by;
      created_at = db.now;
    } in
        ok (row, record db { payment_allocations = db.payment_allocations ++ row ∷ [] }))

payment_of_consorcio : Uuid → Db → Payment → Bool
unfolding any_row
payment_of_consorcio cid db p =
    p.tenant_id == db.current_tenant
    && any_row
        (λ u. u.tenant_id == db.current_tenant && u.consorcio_id == cid && u.id == p.unidad_id)
        db.unidades

-- ORDER BY created_at DESC, id DESC
newer_payment : Payment → Payment → Bool
newer_payment a b = ltb b.created_at a.created_at || (a.created_at == b.created_at && ltb b.id a.id)

unfoldable pub list_cobranzas : Uuid → Db → List Payment
unfolding payment_of_consorcio newer_payment select sort_by
list_cobranzas cid db = sort_by newer_payment (select (payment_of_consorcio cid db) db.payments)

-- `payments_canal_check`
unfoldable pub canal_fits : Text → Bool
unfolding text_eq
canal_fits c =
    text_eq c (codes "efectivo")
    || text_eq c (codes "transferencia")
    || text_eq c (codes "deposito")
    || text_eq c (codes "tarjeta")
    || text_eq c (codes "cajero")
    || text_eq c (codes "mercadopago")
    || text_eq c (codes "otros")

-- NULL references are not compared.
same_referencia : Option Text → Db → Payment → Bool
unfolding text_eq
same_referencia none db p = false
same_referencia (some r) db p =
    p.tenant_id == db.current_tenant && elim p.referencia [ none ↦ false | some s ↦ text_eq s r ]

unidad_exists : Uuid → Db → Bool
unfolding any_row
unidad_exists id db = any_row (λ u. u.tenant_id == db.current_tenant && u.id == id) db.unidades

module _ (env : Env) where
  -- The checks on the channel and the amount, the two unique indexes, and the foreign
  -- keys to the unit and the user.
  unfoldable pub create_cobranza :
      Uuid → Date → Text → ℤ → Option Text → PaymentEstado → Text → Uuid → Action Db Payment
  unfolding canal_fits same_referencia unidad_exists any_row text_eq
  create_cobranza unidad fecha canal importe referencia estado idem_key created_by db =
      if not (canal_fits canal) || leb_ℤ importe (pos 0)
      then err check_violation
      else if any_row (λ p. p.tenant_id == db.current_tenant && text_eq p.idem_key idem_key)
          db.payments
      then err idem_key_unique
      else if any_row (same_referencia referencia db) db.payments
      then err referencia_unique
      else if not (unidad_exists unidad db && user_en created_by db)
      then err foreign_key_violation
      else (let row : Payment = record {
        tenant_id = db.current_tenant;
        unidad_id = unidad;
        id = env.gen_random_uuid db.generated;
        fecha = fecha;
        canal = canal;
        importe_cents = importe;
        referencia = referencia;
        estado = estado;
        idem_key = idem_key;
        motivo_rechazo = none;
        created_by = created_by;
        created_at = db.now;
        psp_provider = none;
        psp_preference_id = none;
        psp_checkout_url = none;
      } in
          ok (row, record db { payments = db.payments ++ row ∷ []; generated = db.generated + 1 }))
