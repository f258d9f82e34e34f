-- ===== src/CuentaCorriente/Reversa.antt =====
-- The reversal of a charge.
use consorcioabierto.Prelude.{
  ℕ, ◌+◌, ◌≡◌, refl, sym, ap, ◌∙◌, true, ◌&&◌, not, ◌==◌, Option, some, [], ◌∷◌, ◌++◌, arith,
  any_row, update_rows,
}
use consorcioabierto.Prelude.Int.{pos}
use consorcioabierto.Prelude.Text.{Text, codes}
use consorcioabierto.Prelude.Rows.{find_row-fits, find_row-update}
use consorcioabierto.Action.{
  foreign_key_violation, Error, bind_after, ok, ok_inj, or_raise, >>=-eq-ok, guard-ok,
  charge_not_found, check_violation,
}
use consorcioabierto.Env.{Uuid, Env}
use consorcioabierto.Store.{Db, Charge, AccountEntry, reversa}
use consorcioabierto.Queries.Charges.{
  unidad_de_tenant, charge_checks, entry_checks, same_charge, get_charge, insert_account_entry,
  update_charge_saldo,
}
use consorcioabierto.CuentaCorriente.{
  revertir_charge, AccountEntryDto, account_entry_dto, unidad_or_own, revertir_cargo,
}

-- The charge once it is reversed.
abbrev pub cancelled : Charge → Charge
cancelled c = record c { saldo_cents = pos 0 }

-- The tables once the balance of a charge is 0.
abbrev pub zeroed : Uuid → Db → Db
zeroed id db = record db { charges = update_rows (same_charge id db) cancelled db.charges }

abbrev pub with_reversa : AccountEntry → Db → Db
with_reversa e db = record db {
  account_entries = db.account_entries ++ e ∷ [];
  generated = db.generated + 1;
}

same_own : (a b c d : ℕ) → (a == b) && (c == d) ≡ true → (a == b) && (c == c) ≡ true
same_own a b c d h = ground (arith, h)

get-zeroed :
    (cid : Uuid) (db : Db) (ch : Charge)
    → get_charge cid db ≡ some ch
    → get_charge cid (zeroed ch.id db) ≡ some (cancelled ch)
unfolding get_charge
get-zeroed cid db ch found =
    let fits = find_row-fits (same_charge cid db) db.charges ch found in
    find_row-update (same_charge cid db) (same_charge ch.id db) cancelled db.charges ch found
      (same_own ch.tenant_id db.current_tenant ch.id cid fits) (λ y. refl)

update_saldo-ok :
    (id : Uuid) (db db' : Db) (u : Unit {0})
    → update_charge_saldo id (pos 0) db ≡ ok (u, db')
    → db' ≡ zeroed id db
unfolding update_charge_saldo
update_saldo-ok id db db' u h =
    let (good, k) =
      guard-ok
        (any_row (λ c. same_charge id db c && not (charge_checks c.total_cents (pos 0))) db.charges)
        check_violation _ h in
    sym (ap (λ r. r.1) (ok_inj k))

found_some :
    {A : Type 0} (o : Option A) (e : Error) (a : A) (db : Db)
    → o ≡ some a
    → or_raise o e db ≡ ok (a, db)
found_some o e a db h = rw h refl

module _ (env : Env) where
  -- The entry that a reversal leaves.
  abbrev pub IsReversa : Uuid → Charge → AccountEntry → Type 0
  IsReversa unidad ch e =
      (e.tipo ≡ reversa)
      × (e.debit_cents ≡ pos 0)
      × (e.credit_cents ≡ ch.total_cents)
      × (e.charge_id ≡ some ch.id)
      × (e.unidad_id ≡ unidad)

  reversa-ok :
      (unidad : Uuid) (ch : Charge) (currency : Text) (referencia : Option Text) (db : Db)
      (e : AccountEntry) (db' : Db)
      → insert_account_entry env unidad reversa ch.due_date
          (pos 0)
          ch.total_cents
          currency
          referencia
          (some ch.id)
          db
        ≡ ok (e, db')
      → IsReversa unidad ch e × (db' ≡ with_reversa e db)
  unfolding insert_account_entry
  reversa-ok unidad ch currency referencia db e db' h =
      let (good, k₀) = guard-ok (not (entry_checks (pos 0) ch.total_cents)) check_violation _ h in
      let (hay, k) = guard-ok (not (unidad_de_tenant unidad db)) foreign_key_violation _ k₀ in
      let s = ok_inj k in
      (
        (
          sym (ap (λ r. r.0.tipo) s),
          sym (ap (λ r. r.0.debit_cents) s),
          sym (ap (λ r. r.0.credit_cents) s),
          sym (ap (λ r. r.0.charge_id) s),
          sym (ap (λ r. r.0.unidad_id) s),
        ),
        sym (ap (λ r. r.1) s) ∙ ap (λ r. with_reversa r.0 db) s,
      )

  get-reversed :
      (cid : Uuid) (db db' : Db) (ch : Charge) (e : AccountEntry)
      → get_charge cid db ≡ some ch
      → db' ≡ with_reversa e (zeroed ch.id db)
      → get_charge cid db' ≡ some (cancelled ch)
  unfolding get_charge
  get-reversed cid db db' ch e found ends = ap (get_charge cid) ends ∙ get-zeroed cid db ch found

  revertir-found :
      (charge_id unidad_id currency : Text) (db : Db) (cid : Uuid) (ch : Charge)
      → env.scan_uuid charge_id ≡ some cid
      → get_charge cid db ≡ some ch
      → revertir_cargo env charge_id unidad_id currency db
        ≡ revertir_charge env charge_id unidad_id currency ch db
  unfolding revertir_cargo
  revertir-found charge_id unidad_id currency db cid ch scanned found =
      bind_after (or_raise (env.scan_uuid charge_id) charge_not_found) _ db cid db
        (found_some (env.scan_uuid charge_id) charge_not_found cid db scanned)
      ∙ bind_after (or_raise (get_charge cid db) charge_not_found) _ db ch db
          (found_some (get_charge cid db) charge_not_found ch db found)

  revertir-charge-ok :
      (charge_id unidad_id currency : Text) (ch : Charge) (db : Db) (dto : AccountEntryDto)
      (db' : Db)
      → revertir_charge env charge_id unidad_id currency ch db ≡ ok (dto, db')
      → (e : AccountEntry) × IsReversa (unidad_or_own env unidad_id ch) ch e
        × (dto ≡ account_entry_dto env e)
        × (db' ≡ with_reversa e (zeroed ch.id db))
  unfolding revertir_charge
  revertir-charge-ok charge_id unidad_id currency ch db dto db' h =
      let (u, db₁, h₁, k₁) = >>=-eq-ok (update_charge_saldo ch.id (pos 0)) _ db h in
      let (e, db₂, h₂, k₂) =
        >>=-eq-ok
          (insert_account_entry env (unidad_or_own env unidad_id ch) reversa ch.due_date (pos 0)
            ch.total_cents currency (some (codes "reversa de cargo " ++ charge_id)) (some ch.id))
          _ db₁ k₁ in
      let zero = update_saldo-ok ch.id db db₁ u h₁ in
      let (is, stored) =
        reversa-ok (unidad_or_own env unidad_id ch) ch currency
          (some (codes "reversa de cargo " ++ charge_id)) db₁ e db₂ h₂ in
      let same = ok_inj k₂ in
      (
        e,
        is,
        sym (ap (λ r. r.0) same),
        sym (ap (λ r. r.1) same) ∙ (stored ∙ ap (with_reversa e) zero),
      )

  -- A charge that is found and reversed with success has balance 0 afterwards and keeps its total,
  -- and the ledger has one entry more, a reversal of that charge that credits its total to the unit
  -- named, or to the charge's own unit where the name does not scan. Nothing else changes.
  pub revertir_cargo_acredita :
      (charge_id unidad_id currency : Text) (db : Db) (cid : Uuid) (ch : Charge)
      (dto : AccountEntryDto) (db' : Db)
      → env.scan_uuid charge_id ≡ some cid
      → get_charge cid db ≡ some ch
      → revertir_cargo env charge_id unidad_id currency db ≡ ok (dto, db')
      → (e : AccountEntry) × IsReversa (unidad_or_own env unidad_id ch) ch e
        × (dto ≡ account_entry_dto env e)
        × (db' ≡ with_reversa e (zeroed ch.id db))
        × (get_charge cid db' ≡ some (cancelled ch))
  revertir_cargo_acredita charge_id unidad_id currency db cid ch dto db' scanned found h =
      let (e, is, out, ends) =
        revertir-charge-ok charge_id unidad_id currency ch db dto db'
          (sym (revertir-found charge_id unidad_id currency db cid ch scanned found) ∙ h) in
      (e, is, out, ends, get-reversed cid db db' ch e found ends)
