-- ===== src/Cobranzas/Asignaciones/Orden.antt =====
-- The open charges of a unit: which they are, and their order.
use mathlib.Core.List.{Mem}
use consorcioabierto.Prelude.{
  ◌≤◌, true, false, List, [], ◌∷◌, ◌≡◌, inl, inr, arith, Bool-cases, All, select,
}
use consorcioabierto.Prelude.Int.{pos, ◌<ℤ◌}
use consorcioabierto.Prelude.Sort.{insert_by, sort_by, All-insert_by, All-sort_by}
use consorcioabierto.Prelude.Members.{All-select, Mem-select, Mem-sort_by}
use consorcioabierto.Prelude.Dates.{Date}
use consorcioabierto.Env.{Uuid}
use consorcioabierto.Store.{Db, Charge}
use consorcioabierto.Queries.Charges.{older_charge, is_open_charge, list_open_charges_by_unidad}

-- No charge of the list falls due before one that stands ahead of it.
abbrev pub PorVencimiento : List Charge → Type 0
PorVencimiento [] = Unit {0}
PorVencimiento (c ∷ cs) = All (λ d. c.due_date ≤ d.due_date) cs × PorVencimiento cs

-- A charge of the unit that is not paid in full and is due by a day.
pub record EstaAbierto (unidad : Uuid) (corte : Date) (db : Db) (c : Charge) : Type 0 where
  pub inquilino : c.tenant_id ≡ db.current_tenant
  pub de_unidad : c.unidad_id ≡ unidad
  pub con_saldo : pos 0 <ℤ c.saldo_cents
  pub vencido : c.due_date ≤ corte

All-desde :
    (c d : Charge) (cs : List Charge)
    → c.due_date ≤ d.due_date
    → All (λ e. d.due_date ≤ e.due_date) cs
    → All (λ e. c.due_date ≤ e.due_date) cs
All-desde c d [] h todos = tt
All-desde c d (e ∷ cs) h todos = (omega (arith, h, todos.0), All-desde c d cs h todos.1)

antes : (a b : Charge) → older_charge a b ≡ true → a.due_date ≤ b.due_date
antes a b h = ground (arith, h)

no_antes : (a b : Charge) → older_charge a b ≡ false → b.due_date ≤ a.due_date
no_antes a b h = ground (arith, h)

insert-PorVencimiento :
    (c : Charge) (cs : List Charge)
    → PorVencimiento cs
    → PorVencimiento (insert_by older_charge c cs)
unfolding insert_by
insert-PorVencimiento c [] h = (tt, tt)
insert-PorVencimiento c (d ∷ cs) h = elim (Bool-cases (older_charge d c)) [
  | inl si ↦ rw si (
    All-insert_by older_charge (λ e. d.due_date ≤ e.due_date) c cs (antes d c si) h.0,
    insert-PorVencimiento c cs h.1,
  )
  | inr nunca ↦ let menor = no_antes d c nunca in rw nunca ((menor, All-desde c d cs menor h.0), h)
]

sort-PorVencimiento : (cs : List Charge) → PorVencimiento (sort_by older_charge cs)
unfolding sort_by
sort-PorVencimiento [] = tt
sort-PorVencimiento (c ∷ cs) =
    insert-PorVencimiento c (sort_by older_charge cs) (sort-PorVencimiento cs)

pub abiertos-PorVencimiento :
    (unidad : Uuid) (corte : Date) (db : Db)
    → PorVencimiento (list_open_charges_by_unidad unidad corte db)
unfolding list_open_charges_by_unidad
abiertos-PorVencimiento unidad corte db =
    sort-PorVencimiento (select (is_open_charge unidad corte db) db.charges)

test-EstaAbierto :
    (unidad : Uuid) (corte : Date) (db : Db) (c : Charge)
    → is_open_charge unidad corte db c ≡ true
    → EstaAbierto unidad corte db c
test-EstaAbierto unidad corte db c h = record {
  inquilino = ground (arith, h);
  de_unidad = ground (arith, h);
  con_saldo = ground (arith, h);
  vencido = ground (arith, h);
}

EstaAbierto-test :
    (unidad : Uuid) (corte : Date) (db : Db) (c : Charge)
    → EstaAbierto unidad corte db c
    → is_open_charge unidad corte db c ≡ true
EstaAbierto-test unidad corte db c h =
    let i = h.inquilino in
    let u = h.de_unidad in let s = h.con_saldo in let v = h.vencido in ground (arith, i, u, s, v)

todos_abiertos :
    (unidad : Uuid) (corte : Date) (db : Db) (cs : List Charge)
    → All (λ c. (is_open_charge unidad corte db c ≡ true) × Mem c db.charges) cs
    → All (λ c. EstaAbierto unidad corte db c × Mem c db.charges) cs
todos_abiertos unidad corte db [] todos = tt
todos_abiertos unidad corte db (c ∷ cs) todos = (
  (test-EstaAbierto unidad corte db c todos.0.0, todos.0.1),
  todos_abiertos unidad corte db cs todos.1,
)

-- They are open charges of the table, and every one is there.
pub abiertos_son :
    (unidad : Uuid) (corte : Date) (db : Db)
    → All
        (λ c. EstaAbierto unidad corte db c × Mem c db.charges)
        (list_open_charges_by_unidad unidad corte db)
unfolding list_open_charges_by_unidad
abiertos_son unidad corte db =
    todos_abiertos unidad corte db (list_open_charges_by_unidad unidad corte db) (
      All-sort_by older_charge (λ c. (is_open_charge unidad corte db c ≡ true) × Mem c db.charges)
        (select (is_open_charge unidad corte db) db.charges)
        (All-select (is_open_charge unidad corte db) db.charges db.charges (λ c m. m)))

pub abiertos_todos :
    (unidad : Uuid) (corte : Date) (db : Db) (c : Charge)
    → EstaAbierto unidad corte db c
    → Mem c db.charges
    → Mem c (list_open_charges_by_unidad unidad corte db)
unfolding list_open_charges_by_unidad
abiertos_todos unidad corte db c a m =
    Mem-sort_by older_charge c (select (is_open_charge unidad corte db) db.charges) (
      Mem-select (is_open_charge unidad corte db) db.charges c m
        (EstaAbierto-test unidad corte db c a))
