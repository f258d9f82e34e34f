-- ===== src/Queries/Payments/Insert.antt =====
-- What a successful insertion of an allocation leaves.
use consorcioabierto.Prelude.{not, ◌≡◌, sym, ap, [], ◌∷◌, ◌++◌}
use consorcioabierto.Prelude.Int.{leb_ℤ, ℤ, pos, ◌<ℤ◌, leb_ℤ→<ℤ}
use consorcioabierto.Action.{
  foreign_key_violation, unique_violation, check_violation, ok, guard-ok, ok_inj,
}
use consorcioabierto.Env.{Uuid}
use consorcioabierto.Store.{Db, PaymentAllocation}
use consorcioabierto.Queries.Payments.{parents_exist, allocation_exists, insert_payment_allocation}

abbrev pub new_allocation : Uuid → Uuid → ℤ → Uuid → Db → PaymentAllocation
new_allocation payment charge amount created_by db = record {
  tenant_id = db.current_tenant;
  payment_id = payment;
  charge_id = charge;
  amount_cents = amount;
  created_by = created_by;
  created_at = db.now;
}

abbrev pub with_allocation : PaymentAllocation → Db → Db
with_allocation row db = record db { payment_allocations = db.payment_allocations ++ row ∷ [] }

-- An allocation that was inserted is the one asked for, at the end of the table, and its amount is
-- positive.
pub insert_allocation-ok :
    (payment charge : Uuid) (amount : ℤ) (actor : Uuid) (db : Db) (a : PaymentAllocation) (db' : Db)
    → insert_payment_allocation payment charge amount actor db ≡ ok (a, db')
    → let row = new_allocation payment charge amount actor db in
      (pos 0 <ℤ amount) × (a ≡ row) × (db' ≡ with_allocation row db)
unfolding insert_payment_allocation
insert_allocation-ok payment charge amount actor db a db' h =
    let (positive, h₁) = guard-ok (leb_ℤ amount (pos 0)) check_violation _ h in
    let (fresh, h₂) = guard-ok (allocation_exists payment charge db) unique_violation _ h₁ in
    let (exists, h₃) =
      guard-ok (not (parents_exist payment charge actor db)) foreign_key_violation _ h₂ in
    (
      leb_ℤ→<ℤ amount (pos 0) positive,
      sym (ap (λ r. r.0) (ok_inj h₃)),
      sym (ap (λ r. r.1) (ok_inj h₃)),
    )
