-- ===== src/Prelude/Rows.antt =====
-- Lemmas on the operations of a table: a key picks out one row.
use Prim.Native.Nat.{ℕ, ◌+◌, ◌≤◌}
use mathlib.Core.Path.{◌≡◌, refl, ap, sym, ◌∙◌}
use mathlib.Core.Logic.{inl, inr}
use mathlib.Core.Bool.{Bool, true, false, ◌&&◌, ◌||◌}
use mathlib.Core.List.{List, [], ◌∷◌}
use mathlib.Core.Option.{some}
use native.Mathlib.Omega.{arith}
use consorcioabierto.Prelude.Tests.{if◌then◌else◌, Bool-cases}
use mathlib.Core.List.{◌++◌}
use mathlib.Core.Option.{none}
use consorcioabierto.Prelude.Lists.{select, find_row, any_row, update_rows, count_rows}

not_key : (a b : Bool) → a ≡ false → (b ≡ true → a ≡ true) → b ≡ false
not_key a true h i = sym (i refl) ∙ h
not_key a false h i = refl

module _ {ℓ} {A : Type ℓ} where
  -- The key holds of at most one row.
  abbrev pub IsKey : (A → Bool) → List A → Type 0
  IsKey p xs = count_rows p xs ≤ 1

  -- The row found has the property.
  pub find_row-fits : (p : A → Bool) (xs : List A) (x : A) → find_row p xs ≡ some x → p x ≡ true
  unfolding find_row
  find_row-fits p [] x h = cc
  find_row-fits p (y ∷ ys) x h = elim (Bool-cases (p y)) [
    | inl fits ↦ ap p (some_inj (sym (rw fits at h))) ∙ fits
    | inr other ↦ find_row-fits p ys x (rw other at h)
  ]
    where
      some_inj : {a b : A} → some a ≡ some b → a ≡ b
      some_inj e = cc

  -- Where the new row keeps the key, it is found in place of the old one.
  pub find_row-update :
      (p q : A → Bool) (f : A → A) (xs : List A) (x : A)
      → find_row p xs ≡ some x
      → q x ≡ true
      → ((y : A) → p (f y) ≡ p y)
      → find_row p (update_rows q f xs) ≡ some (f x)
  unfolding find_row update_rows
  find_row-update p q f [] x h k e = cc
  find_row-update p q f (y ∷ ys) x h k e = elim (Bool-cases (p y)) [
    | inl fits ↦ first y fits (some_inj (rw fits at h))
    | inr other ↦ elim (Bool-cases (q y)) [
      | inl changed ↦ rw (changed, e, other) (find_row-update p q f ys x (rw other at h) k e)
      | inr kept ↦ rw (kept, other) (find_row-update p q f ys x (rw other at h) k e)
    ]
  ]
    where
      some_inj : {a b : A} → some a ≡ some b → a ≡ b
      some_inj e = cc

      first :
          (y : A)
          → p y ≡ true
          → y ≡ x
          → find_row p ((if q y then f y else y) ∷ update_rows q f ys) ≡ some (f x)
      first y fits same = rw (same, k, e, ← same, fits)

  none_fits :
      (p q : A → Bool) (xs : List A)
      → ((y : A) → q y ≡ true → p y ≡ true)
      → count_rows p xs ≤ 0
      → count_rows q xs ≡ 0
  unfolding count_rows
  none_fits p q [] h n = refl
  none_fits p q (y ∷ ys) h n = elim (Bool-cases (q y)) [
    | inl fits ↦ omega (arith, (rw (h y fits) at n))
    | inr other ↦ rw other (omega (arith, none_fits p q ys h (omega (arith, n))))
  ]

  -- The rows that fit and have the key are the row found, once, or none at all.
  pub count_rows-key :
      (p q : A → Bool) (xs : List A) (x : A)
      → IsKey p xs
      → find_row p xs ≡ some x
      → ((y : A) → q y ≡ true → p y ≡ true)
      → count_rows q xs ≡ (if q x then 1 else 0)
  unfolding find_row count_rows
  count_rows-key p q [] x u h i = cc
  count_rows-key p q (y ∷ ys) x u h i = elim (Bool-cases (p y)) [
    | inl fits ↦
        let rest = none_fits p q ys i (omega (arith, (rw fits at u))) in
        let same = some_inj (rw fits at h) in rw (rest, same) (plus_zero _)
    | inr other ↦
        let not_y = not_key (p y) (q y) other (i y) in
        rw not_y
          (omega (arith, count_rows-key p q ys x (omega (arith, rw other at u)) (rw other at h) i))
  ]
    where
      some_inj : {a b : A} → some a ≡ some b → a ≡ b
      some_inj e = cc

      plus_zero : (n : ℕ) → n + 0 ≡ n
      plus_zero n = omega arith

  none_any :
      (q r : A → Bool) (xs : List A) → count_rows q xs ≡ 0 → any_row (λ y. q y && r y) xs ≡ false
  unfolding count_rows any_row
  none_any q r [] h = refl
  none_any q r (y ∷ ys) h = elim (Bool-cases (q y)) [
    | inl fits ↦ let none_left : ⊥ = omega (arith, (rw fits at h)) in elim none_left [ ]
    | inr other ↦ rw other (none_any q r ys (omega (arith, (rw other at h))))
  ]

  -- A property that the row found does not have is had by no row with the key.
  pub any_row-key :
      (p q r : A → Bool) (xs : List A) (x : A)
      → IsKey p xs
      → find_row p xs ≡ some x
      → ((y : A) → q y ≡ true → p y ≡ true)
      → r x ≡ false
      → any_row (λ y. q y && r y) xs ≡ false
  unfolding find_row count_rows any_row
  any_row-key p q r [] x u h i k = refl
  any_row-key p q r (y ∷ ys) x u h i k = elim (Bool-cases (p y)) [
    | inl fits ↦
        let rest = none_any q r ys (none_fits p q ys i (omega (arith, (rw fits at u)))) in
        let same = some_inj (rw fits at h) in rw (rest, same, k) (and_false (q x))
    | inr other ↦
        let not_y = not_key (p y) (q y) other (i y) in
        rw not_y (any_row-key p q r ys x (omega (arith, rw other at u)) (rw other at h) i k)
  ]
    where
      some_inj : {a b : A} → some a ≡ some b → a ≡ b
      some_inj e = cc

      and_false : (b : Bool) → ((b && false) || false) ≡ false
      and_false true = refl
      and_false false = refl

  -- An update that keeps the key keeps how many rows have it.
  pub count_rows-update :
      (p q : A → Bool) (f : A → A) (xs : List A)
      → ((y : A) → p (f y) ≡ p y)
      → count_rows p (update_rows q f xs) ≡ count_rows p xs
  unfolding count_rows update_rows
  count_rows-update p q f [] e = refl
  count_rows-update p q f (y ∷ ys) e = elim (Bool-cases (q y)) [
    | inl changed ↦ rw (changed, e, count_rows-update p q f ys e) refl
    | inr kept ↦ rw (kept, count_rows-update p q f ys e) refl
  ]

  -- Rows that fit after an update did before, so there are no more of them.
  pub count_rows-fewer :
      (p q : A → Bool) (f : A → A) (xs : List A)
      → ((y : A) → q y ≡ true → p (f y) ≡ true → p y ≡ true)
      → count_rows p (update_rows q f xs) ≤ count_rows p xs
  unfolding count_rows update_rows
  count_rows-fewer p q f [] e = omega arith
  count_rows-fewer p q f (y ∷ ys) e = elim (Bool-cases (q y)) [
    | inl changed ↦ rw changed (elim (Bool-cases (p (f y))) [
      | inl fits ↦ rw (fits, e y changed fits) (omega (arith, count_rows-fewer p q f ys e))
      | inr other ↦ rw other (omega (arith, count_rows-fewer p q f ys e))
    ])
    | inr kept ↦ rw kept (omega (arith, count_rows-fewer p q f ys e))
  ]

  -- A row added at the end is found only where none was before.
  pub find_row-append :
      (p : A → Bool) (xs : List A) (z : A)
      → find_row p (xs ++ z ∷ [])
        ≡ elim (find_row p xs) [ none ↦ (if p z then some z else none) | some x ↦ some x ]
  unfolding find_row
  find_row-append p [] z = refl
  find_row-append p (y ∷ ys) z = elim (Bool-cases (p y)) [
    | inl fits ↦ rw fits refl
    | inr other ↦ rw other (find_row-append p ys z)
  ]

  -- An update of rows that do not fit, and that keeps what fits, changes nothing of what is found.
  pub find_row-other :
      (p q : A → Bool) (f : A → A) (xs : List A)
      → ((y : A) → q y ≡ true → p y ≡ false)
      → ((y : A) → p (f y) ≡ p y)
      → find_row p (update_rows q f xs) ≡ find_row p xs
  unfolding find_row update_rows
  find_row-other p q f [] d e = refl
  find_row-other p q f (y ∷ ys) d e = elim (Bool-cases (q y)) [
    | inl changed ↦ rw (changed, e, d y changed) (find_row-other p q f ys d e)
    | inr kept ↦ rw (kept, find_row-other p q f ys d e) refl
  ]

  -- A row added at the end is selected where it fits.
  pub select-append :
      (p : A → Bool) (xs : List A) (z : A)
      → select p (xs ++ z ∷ []) ≡ select p xs ++ (if p z then z ∷ [] else [])
  unfolding select
  select-append p [] z = elim (Bool-cases (p z)) [
    | inl fits ↦ rw fits refl
    | inr other ↦ rw other refl
  ]
  select-append p (y ∷ ys) z = elim (Bool-cases (p y)) [
    | inl fits ↦ rw (fits, select-append p ys z) refl
    | inr other ↦ rw (other, select-append p ys z) refl
  ]

  -- The row found, after an update that keeps the key of every row.
  pub find_row-updated :
      (p q : A → Bool) (f : A → A) (xs : List A) (x : A)
      → find_row p xs ≡ some x
      → ((y : A) → p (f y) ≡ p y)
      → find_row p (update_rows q f xs) ≡ some (if q x then f x else x)
  unfolding find_row update_rows
  find_row-updated p q f [] x h e = cc
  find_row-updated p q f (y ∷ ys) x h e = elim (Bool-cases (p y)) [
    | inl fits ↦
        let same : y ≡ x = some_inj (rw fits at h) in
        rw (changed (q y), fits) (ap (λ z. some (if q z then f z else z)) same)
    | inr other ↦ rw (changed (q y), other) (find_row-updated p q f ys x (rw other at h) e)
  ]
    where
      some_inj : {a b : A} → some a ≡ some b → a ≡ b
      some_inj e = cc

      changed : (b : Bool) → p (if b then f y else y) ≡ p y
      changed true = e y
      changed false = refl
