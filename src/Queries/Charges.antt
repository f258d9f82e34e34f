-- ===== src/Queries/Charges.antt =====
-- internal/database/gen/cuenta_corriente.sql.go: charges and account entries.
use consorcioabierto.Prelude.{
  ◌+◌, Bool, false, Option, none, some, List, [], ◌∷◌, ◌++◌, ◌&&◌, ◌||◌, not, ◌==◌, ltb, leb,
  if◌then◌else◌, select, any_row, find_row, update_rows,
}
use consorcioabierto.Prelude.Int.{ℤ, pos, leb_ℤ, ltb_ℤ, eqb_ℤ}
use consorcioabierto.Prelude.Text.{Text}
use consorcioabierto.Prelude.Dates.{Date}
use consorcioabierto.Prelude.Sort.{sort_by}
use consorcioabierto.Action.{Action, ok, err, check_violation, foreign_key_violation}
use consorcioabierto.Env.{Uuid, Env}
use consorcioabierto.Store.{Db, Charge, AccountEntry, EntryTipo}

-- `charges_total_check`, `charges_saldo_check` and `charges_saldo_lte_total`
abbrev pub charge_checks : ℤ → ℤ → Bool
charge_checks total saldo = ltb_ℤ (pos 0) total && leb_ℤ (pos 0) saldo && leb_ℤ saldo total

-- `account_entries_xor_check`; it implies the other two checks.
abbrev pub entry_checks : ℤ → ℤ → Bool
entry_checks debit credit =
    (ltb_ℤ (pos 0) debit && eqb_ℤ credit (pos 0)) || (ltb_ℤ (pos 0) credit && eqb_ℤ debit (pos 0))

abbrev pub same_charge : Uuid → Db → Charge → Bool
same_charge id db c = c.tenant_id == db.current_tenant && c.id == id

unfoldable pub get_charge : Uuid → Db → Option Charge
unfolding find_row
get_charge id db = find_row (same_charge id db) db.charges

abbrev pub of_liquidacion : Uuid → Option Uuid → Bool
of_liquidacion lid none = false
of_liquidacion lid (some l) = l == lid

abbrev pub charge_of_liquidacion : Uuid → Db → Charge → Bool
charge_of_liquidacion lid db c =
    c.tenant_id == db.current_tenant && of_liquidacion lid c.liquidacion_id

unfoldable pub get_charges_by_liquidacion : Uuid → Db → List Charge
unfolding select
get_charges_by_liquidacion lid db = select (charge_of_liquidacion lid db) db.charges

entry_of_unidad : Uuid → Db → AccountEntry → Bool
entry_of_unidad unidad db e = e.tenant_id == db.current_tenant && e.unidad_id == unidad

-- ORDER BY created_at ASC, id ASC
older_entry : AccountEntry → AccountEntry → Bool
older_entry a b = ltb a.created_at b.created_at || (a.created_at == b.created_at && ltb a.id b.id)

unfoldable pub get_entries_by_unidad : Uuid → Db → List AccountEntry
unfolding entry_of_unidad older_entry select sort_by
get_entries_by_unidad unidad db =
    sort_by older_entry (select (entry_of_unidad unidad db) db.account_entries)

-- ORDER BY due_date ASC, created_at ASC, id ASC
abbrev pub older_charge : Charge → Charge → Bool
older_charge a b =
    ltb a.due_date b.due_date
    || (a.due_date == b.due_date
        && (ltb a.created_at b.created_at || (a.created_at == b.created_at && ltb a.id b.id)))

-- internal/database/gen/cobranzas.sql.go
abbrev pub charge_of_unidad : Uuid → Db → Charge → Bool
charge_of_unidad unidad db c = c.tenant_id == db.current_tenant && c.unidad_id == unidad

unfoldable pub list_charges_by_unidad : Uuid → Db → List Charge
unfolding select sort_by
list_charges_by_unidad unidad db =
    sort_by older_charge (select (charge_of_unidad unidad db) db.charges)

abbrev pub is_open_charge : Uuid → Date → Db → Charge → Bool
is_open_charge unidad corte db c =
    charge_of_unidad unidad db c && ltb_ℤ (pos 0) c.saldo_cents && leb c.due_date corte

unfoldable pub list_open_charges_by_unidad : Uuid → Date → Db → List Charge
unfolding select sort_by
list_open_charges_by_unidad unidad corte db =
    sort_by older_charge (select (is_open_charge unidad corte db) db.charges)

-- The foreign key to the unit.
abbrev pub unidad_de_tenant : Uuid → Db → Bool
unidad_de_tenant id db = any_row (λ u. u.tenant_id == db.current_tenant && u.id == id) db.unidades

module _ (env : Env) where
  unfoldable pub insert_charge : Uuid → Option Uuid → Text → Date → ℤ → ℤ → Action Db Charge
  unfolding any_row
  insert_charge unidad lid concepto due total saldo db =
      if not (charge_checks total saldo)
      then err check_violation
      else if not (unidad_de_tenant unidad db)
      then err foreign_key_violation
      else (let row : Charge = record {
        tenant_id = db.current_tenant;
        unidad_id = unidad;
        id = env.gen_random_uuid db.generated;
        liquidacion_id = lid;
        concepto = concepto;
        due_date = due;
        total_cents = total;
        saldo_cents = saldo;
        created_at = db.now;
      } in
          ok (row, record db { charges = db.charges ++ row ∷ []; generated = db.generated + 1 }))

  unfoldable pub insert_account_entry :
      Uuid → EntryTipo → Date → ℤ → ℤ → Text → Option Text → Option Uuid → Action Db AccountEntry
  unfolding any_row
  insert_account_entry unidad tipo fecha debit credit currency referencia charge db =
      if not (entry_checks debit credit)
      then err check_violation
      else if not (unidad_de_tenant unidad db)
      then err foreign_key_violation
      else (let row : AccountEntry = record {
        tenant_id = db.current_tenant;
        unidad_id = unidad;
        id = env.gen_random_uuid db.generated;
        tipo = tipo;
        fecha_efectiva = fecha;
        debit_cents = debit;
        credit_cents = credit;
        currency = currency;
        referencia = referencia;
        charge_id = charge;
        created_at = db.now;
      } in
          ok (
            row,
            record db {
              account_entries = db.account_entries ++ row ∷ [];
              generated = db.generated + 1;
            },
          ))

-- The checks hold a new balance against the total of each row that it is written to.
unfoldable pub update_charge_saldo : Uuid → ℤ → Action Db (Unit {0})
unfolding any_row update_rows
update_charge_saldo id saldo db =
    if any_row (λ c. same_charge id db c && not (charge_checks c.total_cents saldo)) db.charges
    then err check_violation
    else ok (
      tt,
      record db {
        charges =
            update_rows (same_charge id db) (λ c. record c { saldo_cents = saldo }) db.charges;
      },
    )
