-- ===== src/Cobranzas/Asignaciones/Fifo.antt =====
-- What the FIFO allocation of a payment gives.
use consorcioabierto.Expensas.Calculo.Shares.{max_int64, IsInt64-nonneg}
use consorcioabierto.Prelude.{
  arith, false, inr, inl, Bool-cases, ◌≡◌, refl, sym, ap, ◌∙◌, List, [], ◌∷◌, All,
}
use consorcioabierto.Prelude.Int.{
  ltb_ℤ→≤ℤ, ltb_ℤ→<ℤ, leb_ℤ→<ℤ, leb_ℤ→≤ℤ, ℤ, pos, ◌-ℤ◌, ◌≤ℤ◌, ◌<ℤ◌, int_laws,
}
use consorcioabierto.Prelude.Int64.{sub64_below, sub64_eq, sub64}
use consorcioabierto.Action.{Action, ok, ok_inj, >>=-eq-ok}
use consorcioabierto.Env.{Uuid}
use consorcioabierto.Store.{Db, Payment, PaymentAllocation, Charge}
use consorcioabierto.Queries.Payments.{insert_payment_allocation}
use consorcioabierto.Queries.Payments.Insert.{insert_allocation-ok, with_allocation}
use consorcioabierto.Cobranzas.Asignaciones.{ltb_ℤ, leb_ℤ, fifo_step, fifo_amount, fifo_loop}

-- An amount is paid to charges oldest first: each takes its whole balance while the amount covers
-- it, the first that is not covered takes the rest, and no charge after it takes anything.
pub data Paid : ℤ → List Charge → List PaymentAllocation → ℤ → Type 0 where
  finished : {r : ℤ} → Paid r [] [] r
  whole :
      {r : ℤ} {c : Charge} {cs : List Charge} {a : PaymentAllocation}
      {rows : List PaymentAllocation} {left : ℤ}
      → a.charge_id ≡ c.id
      → a.amount_cents ≡ c.saldo_cents
      → c.saldo_cents ≤ℤ r
      → Paid (r -ℤ c.saldo_cents) cs rows left
      → Paid r (c ∷ cs) (a ∷ rows) left
  last :
      {r : ℤ} {c : Charge} {cs : List Charge} {a : PaymentAllocation}
      → a.charge_id ≡ c.id
      → a.amount_cents ≡ r
      → pos 0 <ℤ r
      → r <ℤ c.saldo_cents
      → Paid r (c ∷ cs) (a ∷ []) (pos 0)
  exhausted : {c : Charge} {cs : List Charge} → Paid (pos 0) (c ∷ cs) [] (pos 0)

abbrev pub AreOpen : List Charge → Type 0
AreOpen cs = All (λ c. pos 0 <ℤ c.saldo_cents) cs

zero_of : (r : ℤ) → pos 0 ≤ℤ r → r ≤ℤ pos 0 → r ≡ pos 0
zero_of r h k = omega int_laws

minus_zero : (r : ℤ) → r -ℤ r ≡ pos 0
minus_zero r = omega int_laws

-- Once nothing remains, the loop ends.
fifo_spent :
    (payment : Payment) (actor : Uuid) (cs : List Charge) (db : Db)
    → fifo_loop payment actor (pos 0) cs db ≡ ok (([], pos 0), db)
unfolding fifo_loop
fifo_spent payment actor [] db = refl
fifo_spent payment actor (c ∷ cs) db = refl

-- One step of the loop that allocates, taken apart.
pub step-ok :
    (payment : Payment) (actor : Uuid) (amount : ℤ) (c : Charge)
    (loop : Action Db (List PaymentAllocation × ℤ)) (db : Db) (rows : List PaymentAllocation)
    (left : ℤ) (db' : Db)
    → fifo_step payment actor amount c loop db ≡ ok ((rows, left), db')
    → (a : PaymentAllocation) × (rest : List PaymentAllocation) × (db₁ : Db) × (rows ≡ a ∷ rest)
      × (a.charge_id ≡ c.id)
      × (a.amount_cents ≡ amount)
      × (db₁ ≡ with_allocation a db)
      × (loop db₁ ≡ ok ((rest, left), db'))
unfolding fifo_step
step-ok payment actor amount c loop db rows left db' h =
    let (a, db₁, inserted, h₁) =
      >>=-eq-ok (insert_payment_allocation payment.id c.id amount actor) _ db h in
    let ((rest, left'), db₂, looped, h₂) = >>=-eq-ok loop _ db₁ h₁ in
    let (positive, same, db_same) =
      insert_allocation-ok payment.id c.id amount actor db a db₁ inserted in
    let e = ok_inj h₂ in
    (
      a,
      rest,
      db₁,
      sym (ap (λ r. r.0.0) e),
      ap (λ a. a.charge_id) same,
      ap (λ a. a.amount_cents) same,
      rw same db_same,
      looped ∙ ap (λ r. ok ((rest, r.0.1), r.1)) e,
    )

pub positive_test : (x : ℤ) → pos 0 <ℤ x → leb_ℤ x (pos 0) ≡ false
positive_test x h = ground (arith, h)

sub64_self : (r : ℤ) → sub64 r r ≡ pos 0
sub64_self r = sub64_eq r r refl

Paid-last :
    (payment : Payment) (actor : Uuid) (r : ℤ) (c : Charge) (cs : List Charge)
    (a : PaymentAllocation) (rows rest : List PaymentAllocation) (left : ℤ) (db₁ db' : Db)
    → rows ≡ a ∷ rest
    → a.charge_id ≡ c.id
    → a.amount_cents ≡ r
    → pos 0 <ℤ r
    → r <ℤ c.saldo_cents
    → fifo_loop payment actor (sub64 r r) cs db₁ ≡ ok ((rest, left), db')
    → Paid r (c ∷ cs) rows left
Paid-last payment actor r c cs a rows rest left db₁ db' same id amount more short loop =
    let loop' = sym (ap (λ x. fifo_loop payment actor x cs db₁) (sub64_self r)) ∙ loop in
    let e = ok_inj (sym (fifo_spent payment actor cs db₁) ∙ loop') in
    rw same (rw (← ap (λ r. r.0.0) e) (rw (← ap (λ r. r.0.1) e) (last id amount more short)))

-- The loop pays the charges oldest first.
pub fifo-Paid :
    (payment : Payment) (actor : Uuid) (remaining : ℤ) (cs : List Charge) (db : Db)
    (rows : List PaymentAllocation) (left : ℤ) (db' : Db)
    → pos 0 ≤ℤ remaining
    → remaining ≤ℤ max_int64
    → AreOpen cs
    → fifo_loop payment actor remaining cs db ≡ ok ((rows, left), db')
    → Paid remaining cs rows left
unfolding fifo_loop fifo_amount
fifo-Paid payment actor remaining [] db rows left db' n m o h =
    let e = ok_inj h in rw (← ap (λ r. r.0.0) e) (rw (← ap (λ r. r.0.1) e) finished)
fifo-Paid payment actor remaining (c ∷ cs) db rows left db' n m o h =
    elim (Bool-cases (leb_ℤ remaining (pos 0))) [
      | inl spent ↦
          let e = ok_inj (rw spent at h) in
          let zero = zero_of remaining n (leb_ℤ→≤ℤ remaining (pos 0) spent) in
          rw (← ap (λ r. r.0.0) e) (rw (← ap (λ r. r.0.1) e) (rw zero exhausted))
      | inr more ↦ elim (Bool-cases (ltb_ℤ remaining c.saldo_cents)) [
        | inl short ↦
            let (a, rest, db₁, same, id, amount, stored, loop) =
              step-ok payment actor remaining c
                (fifo_loop payment actor (sub64 remaining remaining) cs) db rows left db'
                (rw (more, short, more) at h) in
            Paid-last payment actor remaining c cs a rows rest left db₁ db' same id amount
              (leb_ℤ→<ℤ remaining (pos 0) more) (ltb_ℤ→<ℤ remaining c.saldo_cents short) loop
        | inr covered ↦
            let saldo = c.saldo_cents in
            let fits = ltb_ℤ→≤ℤ remaining saldo covered in
            let taken =
              sub64_below remaining saldo (IsInt64-nonneg remaining n m) (omega (int_laws, o.0))
                fits in
            let (a, rest, db₁, same, id, amount, stored, loop) =
              step-ok payment actor saldo c (fifo_loop payment actor (sub64 remaining saldo) cs) db
                rows left db' (rw (more, covered, positive_test saldo o.0) at h) in
            let ih =
              fifo-Paid payment actor (remaining -ℤ saldo) cs db₁ rest left db'
                (omega (int_laws, fits)) (omega (int_laws, o.0, m)) o.1
                (sym (ap (λ x. fifo_loop payment actor x cs db₁) taken) ∙ loop) in
            rw same (whole id amount fits ih)
      ]
    ]
