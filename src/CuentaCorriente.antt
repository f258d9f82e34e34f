-- ===== src/CuentaCorriente.antt =====
-- internal/cuenta_corriente/cuenta_corriente.go: the ledger of each unit, that is charges and
-- account entries.
pub mod Cargos
pub mod Reversa
use consorcioabierto.Prelude.{◌++◌, Option, none, some, List, [], ◌∷◌, map}
use consorcioabierto.Prelude.Int.{ℤ, pos}
use consorcioabierto.Prelude.Text.{Text, codes}
use consorcioabierto.Prelude.Dates.{Date, format_date}
use consorcioabierto.Action.{
  Action, ok, err, pure, gets, or_raise, ◌>>=◌, ◌>>◌, Result, cargo_invalido, charge_not_found,
}
use consorcioabierto.Env.{Uuid, Env}
use consorcioabierto.Store.{Db, Charge, AccountEntry, EntryTipo, cargo, reversa}
use consorcioabierto.Queries.Charges.{
  get_charge, get_entries_by_unidad, insert_charge, insert_account_entry, update_charge_saldo,
}

pub record ChargeDto : Type 0 where
  pub id : Text
  pub unidad_id : Text
  pub liquidacion_id : Option Text
  pub concepto : Text
  pub due_date : Text
  pub total_cents : ℤ
  pub saldo_cents : ℤ

pub record AccountEntryDto : Type 0 where
  pub id : Text
  pub unidad_id : Text
  pub tipo : EntryTipo
  pub fecha_efectiva : Text
  pub debit_cents : ℤ
  pub credit_cents : ℤ
  pub currency : Text
  pub referencia : Option Text

pub record UnidadCobro : Type 0 where
  pub unidad_id : Text
  pub concepto : Text
  pub due_date : Text
  pub total_cents : ℤ
  pub liquidacion_id : Option Text

module _ (env : Env) where
  string_of : Option Uuid → Option Text
  string_of none = none
  string_of (some id) = some (env.uuid_string id)

  unfoldable pub charge_dto : Charge → ChargeDto
  unfolding string_of format_date
  charge_dto c = record {
    id = env.uuid_string c.id;
    unidad_id = env.uuid_string c.unidad_id;
    liquidacion_id = string_of c.liquidacion_id;
    concepto = c.concepto;
    due_date = format_date c.due_date;
    total_cents = c.total_cents;
    saldo_cents = c.saldo_cents;
  }

  unfoldable pub account_entry_dto : AccountEntry → AccountEntryDto
  unfolding format_date
  account_entry_dto e = record {
    id = env.uuid_string e.id;
    unidad_id = env.uuid_string e.unidad_id;
    tipo = e.tipo;
    fecha_efectiva = format_date e.fecha_efectiva;
    debit_cents = e.debit_cents;
    credit_cents = e.credit_cents;
    currency = e.currency;
    referencia = e.referencia;
  }

  -- `parseLiquidacionID`: the outer `none` is an error, the inner one no settlement.
  unfoldable pub parse_liquidacion_id : Option Text → Option (Option Uuid)
  parse_liquidacion_id none = some none
  parse_liquidacion_id (some l) = elim (env.scan_uuid l) [ none ↦ none | some id ↦ some (some id) ]

  -- What the body of the loop of `CreateCargos` does for one unit.
  unfoldable pub create_cargo : Text → UnidadCobro → Action Db (Charge × AccountEntry)
  unfolding parse_liquidacion_id insert_charge insert_account_entry
  create_cargo currency u = do
    uid ← or_raise (env.scan_uuid u.unidad_id) cargo_invalido
    lid ← or_raise (parse_liquidacion_id u.liquidacion_id) cargo_invalido
    due ← or_raise (env.scan_date u.due_date) cargo_invalido
    ch ← insert_charge env uid lid u.concepto due u.total_cents u.total_cents
    entry ← insert_account_entry env uid cargo due u.total_cents (pos 0) currency none (some ch.id)
    pure (ch, entry)

  unfoldable pub create_cargos :
      List UnidadCobro → Text → Action Db (List ChargeDto × List AccountEntryDto)
  unfolding create_cargo charge_dto account_entry_dto
  create_cargos [] currency = pure ([], [])
  create_cargos (u ∷ us) currency = do
    (ch, entry) ← create_cargo currency u
    (charges, entries) ← create_cargos us currency
    pure (charge_dto ch ∷ charges, account_entry_dto entry ∷ entries)

  -- The unit of the caller, or that of the charge where the caller's does not parse.
  unfoldable pub unidad_or_own : Text → Charge → Uuid
  unidad_or_own unidad ch = elim (env.scan_uuid unidad) [ none ↦ ch.unidad_id | some uid ↦ uid ]

  -- `RevertirCargo` once the charge is found.
  unfoldable pub revertir_charge : Text → Text → Text → Charge → Action Db AccountEntryDto
  unfolding unidad_or_own update_charge_saldo insert_account_entry account_entry_dto
  revertir_charge charge_id unidad_id currency ch = do
    update_charge_saldo ch.id (pos 0)
    entry ←
        insert_account_entry env (unidad_or_own unidad_id ch) reversa ch.due_date (pos 0)
          ch.total_cents currency (some (codes "reversa de cargo " ++ charge_id)) (some ch.id)
    pure (account_entry_dto entry)

  unfoldable pub revertir_cargo : Text → Text → Text → Action Db AccountEntryDto
  unfolding get_charge revertir_charge
  revertir_cargo charge_id unidad_id currency = do
    cid ← or_raise (env.scan_uuid charge_id) charge_not_found
    found ← gets (get_charge cid)
    ch ← or_raise found charge_not_found
    revertir_charge charge_id unidad_id currency ch

  unfoldable pub list_entries_by_unidad : Text → Action Db (List AccountEntryDto)
  unfolding get_entries_by_unidad account_entry_dto
  list_entries_by_unidad unidad_id = do
    uid ← or_raise (env.scan_uuid unidad_id) cargo_invalido
    entries ← gets (get_entries_by_unidad uid)
    pure (map account_entry_dto entries)
