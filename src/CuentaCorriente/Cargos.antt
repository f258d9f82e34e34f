-- ===== src/CuentaCorriente/Cargos.antt =====
-- The charges of a batch: each unit gets one charge and one entry in the ledger.
use mathlib.Core.Path.{subst}
use consorcioabierto.Prelude.{
  refl, arith, false, ℕ, ◌≡◌, sym, ap, ◌∙◌, not, Option, some, List, [], ◌∷◌, ◌++◌, ◌+◌,
}
use consorcioabierto.Prelude.Int.{ℤ, ◌<ℤ◌, pos}
use consorcioabierto.Prelude.Text.{Text}
use consorcioabierto.Prelude.Dates.{Date}
use consorcioabierto.Action.{
  foreign_key_violation, or_raise-ok, cargo_invalido, or_raise, >>=-eq-ok, ok, ok_inj, guard-ok,
  check_violation,
}
use consorcioabierto.Env.{Uuid, Env}
use consorcioabierto.Store.{Db, Charge, AccountEntry, cargo}
use consorcioabierto.Queries.Charges.{
  unidad_de_tenant, charge_checks, entry_checks, insert_charge, insert_account_entry,
}
use consorcioabierto.CuentaCorriente.{
  charge_dto, account_entry_dto, account_entry_dto, charge_dto, map, AccountEntryDto, ChargeDto,
  create_cargos, none, create_cargo, UnidadCobro, parse_liquidacion_id,
}

append_nil : {A : Type 0} (xs : List A) → xs ++ [] ≡ xs
append_nil [] = refl
append_nil (x ∷ xs) = ap (λ l. x ∷ l) (append_nil xs)

append_one : {A : Type 0} (xs : List A) (x : A) (ys : List A) → (xs ++ x ∷ []) ++ ys ≡ xs ++ x ∷ ys
append_one [] x ys = refl
append_one (y ∷ xs) x ys = ap (λ l. y ∷ l) (append_one xs x ys)

module _ (env : Env) where
  -- The charge and the entry that belong to a unit of the batch.
  pub record IsCargo (u : UnidadCobro) (tenant : Uuid) (c : Charge) (e : AccountEntry)
      : Type 0 where
    pub unidad : env.scan_uuid u.unidad_id ≡ some c.unidad_id
    pub liquidacion : parse_liquidacion_id env u.liquidacion_id ≡ some c.liquidacion_id
    pub vencimiento : env.scan_date u.due_date ≡ some c.due_date
    pub total : c.total_cents ≡ u.total_cents
    pub saldo : c.saldo_cents ≡ u.total_cents
    pub positivo : pos 0 <ℤ u.total_cents
    pub inquilino : (c.tenant_id ≡ tenant) × (e.tenant_id ≡ tenant)
    pub mismo : (e.charge_id ≡ some c.id) × (e.unidad_id ≡ c.unidad_id)
    pub debe : (e.tipo ≡ cargo) × (e.debit_cents ≡ u.total_cents) × (e.credit_cents ≡ pos 0)

  -- The rows that a batch adds, unit by unit.
  pub data Cargados (tenant : Uuid)
      : List UnidadCobro → List Charge → List AccountEntry → Type 0 where
    nada : Cargados tenant [] [] []
    uno :
        {u : UnidadCobro} {us : List UnidadCobro} {c : Charge} {cs : List Charge} {e : AccountEntry}
        {es : List AccountEntry}
        → IsCargo u tenant c e
        → Cargados tenant us cs es
        → Cargados tenant (u ∷ us) (c ∷ cs) (e ∷ es)

  abbrev add_charge : Charge → Db → Db
  add_charge c db = record db { charges = db.charges ++ c ∷ []; generated = db.generated + 1 }

  abbrev add_entry : AccountEntry → Db → Db
  add_entry e db = record db {
    account_entries = db.account_entries ++ e ∷ [];
    generated = db.generated + 1;
  }

  -- What a successful insertion returns and leaves.
  abbrev ChargeAt : Uuid → Option Uuid → Date → ℤ → Db → Charge → Db → Type 0
  ChargeAt unidad lid due total db c db' =
      (c.tenant_id ≡ db.current_tenant)
      × (c.unidad_id ≡ unidad)
      × (c.liquidacion_id ≡ lid)
      × (c.due_date ≡ due)
      × (c.total_cents ≡ total)
      × (c.saldo_cents ≡ total)
      × (pos 0 <ℤ total)
      × (db' ≡ add_charge c db)

  abbrev EntryAt : Uuid → ℤ → Option Uuid → Db → AccountEntry → Db → Type 0
  EntryAt unidad debit charge db a db' =
      (a.tenant_id ≡ db.current_tenant)
      × (a.unidad_id ≡ unidad)
      × (a.tipo ≡ cargo)
      × (a.debit_cents ≡ debit)
      × (a.credit_cents ≡ pos 0)
      × (a.charge_id ≡ charge)
      × (db' ≡ add_entry a db)

  positive_total : (total : ℤ) → not (charge_checks total total) ≡ false → pos 0 <ℤ total
  positive_total total h = ground (arith, h)

  insert_charge-ok :
      (unidad : Uuid) (lid : Option Uuid) (concepto : Text) (due : Date) (total : ℤ) (db : Db)
      (c : Charge) (db' : Db)
      → insert_charge env unidad lid concepto due total total db ≡ ok (c, db')
      → ChargeAt unidad lid due total db c db'
  unfolding insert_charge
  insert_charge-ok unidad lid concepto due total db c db' h =
      let (good, k₀) = guard-ok (not (charge_checks total total)) check_violation _ h in
      let (hay, k) = guard-ok (not (unidad_de_tenant unidad db)) foreign_key_violation _ k₀ in
      let e = ok_inj k in
      (
        sym (ap (λ r. r.0.tenant_id) e),
        sym (ap (λ r. r.0.unidad_id) e),
        sym (ap (λ r. r.0.liquidacion_id) e),
        sym (ap (λ r. r.0.due_date) e),
        sym (ap (λ r. r.0.total_cents) e),
        sym (ap (λ r. r.0.saldo_cents) e),
        positive_total total good,
        sym (ap (λ r. r.1) e) ∙ ap (λ r. add_charge r.0 db) e,
      )

  insert_entry-ok :
      (unidad : Uuid) (fecha : Date) (debit : ℤ) (currency : Text) (charge : Option Uuid) (db : Db)
      (a : AccountEntry) (db' : Db)
      → insert_account_entry env unidad cargo fecha debit (pos 0) currency none charge db
        ≡ ok (a, db')
      → EntryAt unidad debit charge db a db'
  unfolding insert_account_entry
  insert_entry-ok unidad fecha debit currency charge db a db' h =
      let (good, k₀) = guard-ok (not (entry_checks debit (pos 0))) check_violation _ h in
      let (hay, k) = guard-ok (not (unidad_de_tenant unidad db)) foreign_key_violation _ k₀ in
      let e = ok_inj k in
      (
        sym (ap (λ r. r.0.tenant_id) e),
        sym (ap (λ r. r.0.unidad_id) e),
        sym (ap (λ r. r.0.tipo) e),
        sym (ap (λ r. r.0.debit_cents) e),
        sym (ap (λ r. r.0.credit_cents) e),
        sym (ap (λ r. r.0.charge_id) e),
        sym (ap (λ r. r.1) e) ∙ ap (λ r. add_entry r.0 db) e,
      )

  -- The tables after one unit.
  abbrev with_cargo : Charge → AccountEntry → Db → Db
  with_cargo c e db = record db {
    charges = db.charges ++ c ∷ [];
    account_entries = db.account_entries ++ e ∷ [];
    generated = db.generated + 1 + 1;
  }

  IsCargo-parts :
      (u : UnidadCobro) (uid : Uuid) (lid : Option Uuid) (due : Date) (db db₃ db₄ db₅ : Db)
      (c : Charge) (e : AccountEntry)
      → env.scan_uuid u.unidad_id ≡ some uid
      → parse_liquidacion_id env u.liquidacion_id ≡ some lid
      → env.scan_date u.due_date ≡ some due
      → db₃ ≡ db
      → ChargeAt uid lid due u.total_cents db₃ c db₄
      → EntryAt uid u.total_cents (some c.id) db₄ e db₅
      → IsCargo u db.current_tenant c e × (db₅ ≡ with_cargo c e db)
  IsCargo-parts u uid lid due db db₃ db₄ db₅ c e scan_u scan_l scan_d same ch en =
      let (c_tenant, c_unidad, c_lid, c_due, c_total, c_saldo, c_pos, c_db) = ch in
      let (e_tenant, e_unidad, e_tipo, e_debit, e_credit, e_charge, e_db) = en in
      let tenant = ap (λ d. d.current_tenant) same in
      (
        record {
          unidad = scan_u ∙ ap some (sym c_unidad);
          liquidacion = scan_l ∙ ap some (sym c_lid);
          vencimiento = scan_d ∙ ap some (sym c_due);
          total = c_total;
          saldo = c_saldo;
          positivo = c_pos;
          inquilino = (c_tenant ∙ tenant, e_tenant ∙ (ap (λ d. d.current_tenant) c_db ∙ tenant));
          mismo = (e_charge, e_unidad ∙ sym c_unidad);
          debe = (e_tipo, e_debit, e_credit);
        },
        e_db ∙ (ap (add_entry e) c_db ∙ ap (with_cargo c e) same),
      )

  create_cargo-ok :
      (currency : Text) (u : UnidadCobro) (db : Db) (c : Charge) (e : AccountEntry) (db' : Db)
      → create_cargo env currency u db ≡ ok ((c, e), db')
      → IsCargo u db.current_tenant c e × (db' ≡ with_cargo c e db)
  unfolding create_cargo
  create_cargo-ok currency u db c e db' h =
      let (uid, db₁, h₁, k₁) =
        >>=-eq-ok (or_raise (env.scan_uuid u.unidad_id) cargo_invalido) _ db h in
      let (lid, db₂, h₂, k₂) =
        >>=-eq-ok (or_raise (parse_liquidacion_id env u.liquidacion_id) cargo_invalido) _ db₁ k₁ in
      let (due, db₃, h₃, k₃) =
        >>=-eq-ok (or_raise (env.scan_date u.due_date) cargo_invalido) _ db₂ k₂ in
      let (c', db₄, h₄, k₄) =
        >>=-eq-ok (insert_charge env uid lid u.concepto due u.total_cents u.total_cents) _ db₃ k₃ in
      let (e', db₅, h₅, k₅) =
        >>=-eq-ok
          (insert_account_entry env uid cargo due u.total_cents (pos 0) currency none (some c'.id))
          _ db₄ k₄ in
      let s₁ = or_raise-ok (env.scan_uuid u.unidad_id) cargo_invalido db h₁ in
      let s₂ = or_raise-ok (parse_liquidacion_id env u.liquidacion_id) cargo_invalido db₁ h₂ in
      let s₃ = or_raise-ok (env.scan_date u.due_date) cargo_invalido db₂ h₃ in
      let same : db₃ ≡ db = s₃.1 ∙ (s₂.1 ∙ s₁.1) in
      let charge = insert_charge-ok uid lid u.concepto due u.total_cents db₃ c' db₄ h₄ in
      let entry = insert_entry-ok uid due u.total_cents currency (some c'.id) db₄ e' db₅ h₅ in
      subst (λ r. IsCargo u db.current_tenant r.0.0 r.0.1 × (r.1 ≡ with_cargo r.0.0 r.0.1 db))
        (ok_inj k₅)
        (IsCargo-parts u uid lid due db db₃ db₄ db₅ c' e' s₁.0 s₂.0 s₃.0 same charge entry)

  -- The tables after the batch.
  abbrev pub with_cargos : List Charge → List AccountEntry → ℕ → Db → Db
  with_cargos cs es n db = record db {
    charges = db.charges ++ cs;
    account_entries = db.account_entries ++ es;
    generated = n;
  }

  with_none : (db : Db) → with_cargos [] [] db.generated db ≡ db
  with_none db = rw (append_nil db.charges, append_nil db.account_entries) refl

  with_one :
      (c : Charge) (cs : List Charge) (e : AccountEntry) (es : List AccountEntry) (n : ℕ) (db : Db)
      → with_cargos cs es n (with_cargo c e db) ≡ with_cargos (c ∷ cs) (e ∷ es) n db
  with_one c cs e es n db = rw (append_one db.charges c cs, append_one db.account_entries e es) refl

  -- A batch that succeeds charges each of its units, in order, and nothing else changes.
  pub create_cargos_carga_cada_unidad :
      (us : List UnidadCobro) (currency : Text) (db : Db)
      (out : List ChargeDto × List AccountEntryDto) (db' : Db)
      → create_cargos env us currency db ≡ ok (out, db')
      → (cs : List Charge) × (es : List AccountEntry) × (n : ℕ) × Cargados db.current_tenant us cs
          es
        × (db' ≡ with_cargos cs es n db)
        × (out ≡ (map (charge_dto env) cs, map (account_entry_dto env) es))
  unfolding create_cargos
  create_cargos_carga_cada_unidad [] currency db out db' h =
      let same = ok_inj h in
      (
        [],
        [],
        db.generated,
        nada,
        sym (ap (λ r. r.1) same) ∙ sym (with_none db),
        sym (ap (λ r. r.0) same),
      )
  create_cargos_carga_cada_unidad (u ∷ us) currency db out db' h =
      let ((c, e), db₁, h₁, k₁) = >>=-eq-ok (create_cargo env currency u) _ db h in
      let ((ds, ads), db₂, h₂, k₂) = >>=-eq-ok (create_cargos env us currency) _ db₁ k₁ in
      let (is, stored) = create_cargo-ok currency u db c e db₁ h₁ in
      let (cs, es, n, rows, stored', outs) =
        create_cargos_carga_cada_unidad us currency db₁ (ds, ads) db₂ h₂ in
      let same = ok_inj k₂ in
      let tenant : db₁.current_tenant ≡ db.current_tenant = ap (λ d. d.current_tenant) stored in
      (
        c ∷ cs,
        e ∷ es,
        n,
        uno is (subst (λ t. Cargados t us cs es) tenant rows),
        sym (ap (λ r. r.1) same)
            ∙ (stored' ∙ (ap (with_cargos cs es n) stored ∙ with_one c cs e es n db)),
        sym (ap (λ r. r.0) same)
            ∙ ap (λ o. (charge_dto env c ∷ o.0, account_entry_dto env e ∷ o.1)) outs,
      )
