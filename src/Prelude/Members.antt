-- ===== src/Prelude/Members.antt =====
-- Members of the lists that the queries give.
use mathlib.Core.List.{Mem, Mem-prop, mem-cons, mem-cons_self, mem-cons_of_mem}
use mathlib.Core.Path.{◌≡◌, refl, subst, sym}
use mathlib.Core.Logic.{inl, inr}
use mathlib.Core.Logic.Or
use mathlib.Core.List.Perm
use mathlib.Core.Bool.{Bool, true, false, ◌&&◌}
use mathlib.Core.List.{List, [], ◌∷◌}
use consorcioabierto.Prelude.Tests.{Bool-cases}
use consorcioabierto.Prelude.Lists.{All, select, any_row}
use consorcioabierto.Prelude.Sort.{sort_by, sort_by-perm}

pub and_parts : (a b : Bool) → a && b ≡ true → (a ≡ true) × (b ≡ true)
and_parts true b h = (refl, h)
and_parts false b h = cc

module _ {A : Type 0} where
  -- The rows that a test selects hold it and are rows of the table.
  pub All-select :
      (p : A → Bool) (xs full : List A)
      → ((x : A) → Mem x xs → Mem x full)
      → All (λ x. (p x ≡ true) × Mem x full) (select p xs)
  unfolding select
  All-select p [] full f = tt
  All-select p (x ∷ xs) full f =
      let rest = All-select p xs full (λ y m. f y (mem-cons_of_mem x m)) in
      elim (Bool-cases (p x)) [
        | inl es ↦ rw es ((es, f x mem-cons_self), rest)
        | inr otra ↦ rw otra rest
      ]

  -- A test that holds of some row holds of one that is there.
  pub any_row-Mem :
      (p : A → Bool) (xs : List A) → any_row p xs ≡ true → (x : A) × Mem x xs × (p x ≡ true)
  unfolding any_row
  any_row-Mem p [] h = cc
  any_row-Mem p (x ∷ xs) h = elim (Bool-cases (p x)) [
    | inl es ↦ (x, mem-cons_self, es)
    | inr otra ↦
        let (y, esta, es) = any_row-Mem p xs (rw otra at h) in (y, mem-cons_of_mem x esta, es)
  ]

  pub Mem-select :
      (p : A → Bool) (xs : List A) (x : A) → Mem x xs → p x ≡ true → Mem x (select p xs)
  unfolding select
  Mem-select p [] x m h = m
  Mem-select p (y ∷ xs) x m h =
      Or.elim (Mem-prop {a = x} {l = select p (y ∷ xs)}) (mem-cons.0 m)
        (λ e.
          subst (λ z. Mem z (select p (y ∷ xs))) (sym e)
            (rw (subst (λ z. p z ≡ true) e h) mem-cons_self))
        (λ m'. elim (Bool-cases (p y)) [
          | inl es ↦ rw es (mem-cons_of_mem y (Mem-select p xs x m' h))
          | inr otra ↦ rw otra (Mem-select p xs x m' h)
        ])

  pub Mem-sort_by : (less : A → A → Bool) (x : A) (xs : List A) → Mem x xs → Mem x (sort_by less xs)
  Mem-sort_by less x xs m = (Perm.mem_iff (sort_by-perm less xs)).1 m
