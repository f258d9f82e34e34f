-- ===== src/Cobranzas/Asignaciones/Total.antt =====
-- The totals of an allocation, and the rows that it stores.
use consorcioabierto.Prelude.{
  ◌≡◌, refl, sym, ap, ◌∙◌, inl, inr, true, List, [], ◌∷◌, ◌++◌, arith, Bool-cases, select,
}
use consorcioabierto.Prelude.Int.{ℤ, pos, ◌+ℤ◌, ◌-ℤ◌, ◌≤ℤ◌, ◌<ℤ◌, leb_ℤ, int_laws, parts_of_eq}
use consorcioabierto.Prelude.Sort.{All-sort_by}
use consorcioabierto.Action.{ok, ok_inj}
use consorcioabierto.Env.{Uuid}
use consorcioabierto.Prelude.Dates.{Date}
use consorcioabierto.Store.{Db, Payment, PaymentAllocation, Charge}
use consorcioabierto.Queries.Charges.{list_open_charges_by_unidad, is_open_charge, older_charge}
use consorcioabierto.Queries.Payments.Insert.{with_allocation}
use consorcioabierto.Cobranzas.Asignaciones.{sub64, fifo_loop, fifo_amount, build_fifo_allocations}
use consorcioabierto.Cobranzas.Asignaciones.Fifo.{
  Paid, finished, whole, last, exhausted, AreOpen, fifo-Paid, step-ok,
}
use mathlib.Core.List.{Mem}
use consorcioabierto.Prelude.{All}
use consorcioabierto.Cobranzas.Asignaciones.Orden.{
  PorVencimiento, EstaAbierto, abiertos-PorVencimiento, abiertos_son, abiertos_todos,
}
use consorcioabierto.Expensas.Calculo.Shares.{max_int64}

-- The exact sums.
abbrev pub sum_amounts : List PaymentAllocation → ℤ
sum_amounts [] = pos 0
sum_amounts (a ∷ rows) = a.amount_cents +ℤ sum_amounts rows

abbrev pub sum_saldos : List Charge → ℤ
sum_saldos [] = pos 0
sum_saldos (c ∷ cs) = c.saldo_cents +ℤ sum_saldos cs

abbrev pub with_allocations : List PaymentAllocation → Db → Db
with_allocations rows db = record db { payment_allocations = db.payment_allocations ++ rows }

whole_sum : (a s r rest left : ℤ) → a ≡ s → rest +ℤ left ≡ r -ℤ s → a +ℤ rest +ℤ left ≡ r
whole_sum a s r rest left e h = omega (int_laws, parts_of_eq _ _ e, parts_of_eq _ _ h)

last_sum : (a r : ℤ) → a ≡ r → a +ℤ pos 0 +ℤ pos 0 ≡ r
last_sum a r e = omega (int_laws, parts_of_eq _ _ e)

zero_sum : (r : ℤ) → pos 0 +ℤ r ≡ r
zero_sum r = omega int_laws

-- What is allocated and what is left make up the amount.
Paid-sum :
    (r : ℤ) (cs : List Charge) (rows : List PaymentAllocation) (left : ℤ)
    → Paid r cs rows left
    → sum_amounts rows +ℤ left ≡ r
Paid-sum r _ _ _ finished = zero_sum r
Paid-sum r (c ∷ cs) (a ∷ rows) left (whole id amount fits rest) =
    whole_sum _ _ _ _ _ amount (Paid-sum _ cs rows left rest)
Paid-sum r _ (a ∷ []) _ (last id amount more short) = last_sum _ _ amount
Paid-sum _ _ _ _ exhausted = zero_sum (pos 0)

-- Where something is left, every charge is paid in full.
Paid-all :
    (r : ℤ) (cs : List Charge) (rows : List PaymentAllocation) (left : ℤ)
    → Paid r cs rows left
    → pos 0 <ℤ left
    → sum_amounts rows ≡ sum_saldos cs
Paid-all r _ _ _ finished m = refl
Paid-all r (c ∷ cs) (a ∷ rows) left (whole id amount fits rest) m =
    rw (amount, Paid-all _ cs rows left rest m)
Paid-all r _ (a ∷ []) _ (last id amount more short) m = omega (int_laws, m)
Paid-all _ _ _ _ exhausted m = omega (int_laws, m)

append_assoc : {A : Type 0} (xs ys zs : List A) → xs ++ (ys ++ zs) ≡ (xs ++ ys) ++ zs
append_assoc [] ys zs = refl
append_assoc (x ∷ xs) ys zs = ap (λ l. x ∷ l) (append_assoc xs ys zs)

append_nil : {A : Type 0} (xs : List A) → xs ++ [] ≡ xs
append_nil [] = refl
append_nil (x ∷ xs) = ap (λ l. x ∷ l) (append_nil xs)

pub none_added : (db : Db) → with_allocations [] db ≡ db
none_added db = ap (λ l. record db { payment_allocations = l }) (append_nil db.payment_allocations)

pub one_added :
    (a : PaymentAllocation) (rows : List PaymentAllocation) (db : Db)
    → with_allocations rows (with_allocation a db) ≡ with_allocations (a ∷ rows) db
one_added a rows db =
    ap (λ l. record db { payment_allocations = l })
      (sym (append_assoc db.payment_allocations (a ∷ []) rows))

pub stores_step :
    (a : PaymentAllocation) (rest rows : List PaymentAllocation) (db db₁ db' : Db)
    → rows ≡ a ∷ rest
    → db₁ ≡ with_allocation a db
    → db' ≡ with_allocations rest db₁
    → db' ≡ with_allocations rows db
stores_step a rest rows db db₁ db' same stored ih =
    ih
    ∙ (ap (λ d. with_allocations rest d) stored
        ∙ (one_added a rest db ∙ ap (λ l. with_allocations l db) (sym same)))

-- What the loop stores is what it returns, at the end of the table.
fifo_stores :
    (payment : Payment) (actor : Uuid) (remaining : ℤ) (cs : List Charge) (db : Db)
    (rows : List PaymentAllocation) (left : ℤ) (db' : Db)
    → fifo_loop payment actor remaining cs db ≡ ok ((rows, left), db')
    → db' ≡ with_allocations rows db
unfolding fifo_loop
fifo_stores payment actor remaining [] db rows left db' h =
    let e = ok_inj h in rw (← ap (λ r. r.0.0) e) (sym (ap (λ r. r.1) e) ∙ sym (none_added db))
fifo_stores payment actor remaining (c ∷ cs) db rows left db' h =
    elim (Bool-cases (leb_ℤ remaining (pos 0))) [
      | inl spent ↦
          let e = ok_inj (rw spent at h) in
          rw (← ap (λ r. r.0.0) e) (sym (ap (λ r. r.1) e) ∙ sym (none_added db))
      | inr more ↦ elim (Bool-cases (leb_ℤ (fifo_amount remaining c) (pos 0))) [
        | inl nothing ↦
            fifo_stores payment actor remaining cs db rows left db' (rw (more, nothing) at h)
        | inr some_amount ↦
            let amount = fifo_amount remaining c in
            let (a, rest, db₁, same, id, eq, stored, loop) =
              step-ok payment actor amount c (fifo_loop payment actor (sub64 remaining amount) cs)
                db rows left db' (rw (more, some_amount) at h) in
            let ih = fifo_stores payment actor (sub64 remaining amount) cs db₁ rest left db' loop in
            stores_step a rest rows db db₁ db' same stored ih
      ]
    ]

open_of_test :
    (unidad : Uuid) (corte : Date) (db : Db) (c : Charge)
    → is_open_charge unidad corte db c ≡ true
    → pos 0 <ℤ c.saldo_cents
open_of_test unidad corte db c h = ground (arith, h)

select_open :
    (unidad : Uuid) (corte : Date) (db : Db) (cs : List Charge)
    → AreOpen (select (is_open_charge unidad corte db) cs)
unfolding select
select_open unidad corte db [] = tt
select_open unidad corte db (c ∷ cs) = elim (Bool-cases (is_open_charge unidad corte db c)) [
  | inl fits ↦ rw fits (open_of_test unidad corte db c fits, select_open unidad corte db cs)
  | inr other ↦ rw other (select_open unidad corte db cs)
]

open_charges :
    (unidad : Uuid) (corte : Date) (db : Db) → AreOpen (list_open_charges_by_unidad unidad corte db)
unfolding list_open_charges_by_unidad
open_charges unidad corte db =
    All-sort_by older_charge (λ c. pos 0 <ℤ c.saldo_cents) _
      (select_open unidad corte db db.charges)

-- A payment of a positive amount within int64 that is allocated without instructions is allocated, in
-- order of due date, to exactly the charges of its unit that have an open balance and are due by the
-- day of the payment (`Paid`): each is allocated its whole balance while the payment covers it. The
-- allocations and what is left make up the amount exactly; where something is left, the balance of
-- every such charge is allocated; and the rows stored are the allocations returned, after those that
-- were there.
pub fifo_paga :
    (payment : Payment) (actor : Uuid) (db : Db) (rows : List PaymentAllocation) (left : ℤ)
    (db' : Db)
    → pos 0 <ℤ payment.importe_cents
    → payment.importe_cents ≤ℤ max_int64
    → build_fifo_allocations payment actor db ≡ ok ((rows, left), db')
    → let charges = list_open_charges_by_unidad payment.unidad_id payment.fecha db in
      Paid payment.importe_cents charges rows left
      × (sum_amounts rows +ℤ left ≡ payment.importe_cents)
      × (pos 0 <ℤ left → sum_amounts rows ≡ sum_saldos charges)
      × (db' ≡ with_allocations rows db)
      × PorVencimiento charges
      × All (λ c. EstaAbierto payment.unidad_id payment.fecha db c × Mem c db.charges) charges
      × ((c : Charge)
          → EstaAbierto payment.unidad_id payment.fecha db c
          → Mem c db.charges
          → Mem c charges)
unfolding build_fifo_allocations
fifo_paga payment actor db rows left db' p m h =
    let charges = list_open_charges_by_unidad payment.unidad_id payment.fecha db in
    let amount = payment.importe_cents in
    let paid =
      fifo-Paid payment actor amount charges db rows left db' (omega (int_laws, p)) m
        (open_charges payment.unidad_id payment.fecha db) h in
    (
      paid,
      Paid-sum amount charges rows left paid,
      Paid-all amount charges rows left paid,
      fifo_stores payment actor amount charges db rows left db' h,
      abiertos-PorVencimiento payment.unidad_id payment.fecha db,
      abiertos_son payment.unidad_id payment.fecha db,
      abiertos_todos payment.unidad_id payment.fecha db,
    )
