-- ===== src/Identity/Op.antt =====
-- Calls that may leave changes behind where they fail: the state comes back with an error too.
use consorcioabierto.Prelude.{Bool, true, false, Option, none, some}
use consorcioabierto.Action.{Result, ok, err, Error}

abbrev pub Op : Type 0 → Type 0 → Type 0
Op S A = S → Result A × S

module _ {S A : Type 0} where
  abbrev pub pure : A → Op S A
  pure a s = (ok a, s)

  abbrev pub fail : Error → Op S A
  fail e s = (err e, s)

  abbrev pub gets : (S → A) → Op S A
  gets f s = (ok (f s), s)

  abbrev pub lift : Result A → Op S A
  lift r s = (r, s)

  abbrev pub or_fail : Option A → Error → Op S A
  or_fail none e s = (err e, s)
  or_fail (some a) e s = (ok a, s)

abbrev pub seguir : {S A B : Type 0} → (A → Op S B) → Result A × S → Result B × S
seguir f (ok a, s) = f a s
seguir f (err e, s) = (err e, s)

infixl 5 ◌>>=◌ ◌>>◌
unfoldable pub ◌>>=◌ : {S A B : Type 0} → Op S A → (A → Op S B) → Op S B
◌>>=◌ m f s = seguir f (m s)

unfoldable pub ◌>>◌ : {S A B : Type 0} → Op S A → Op S B → Op S B
m >> k = m >>= λ _. k

abbrev pub fail_if : {S : Type 0} → Bool → Error → Op S (Unit {0})
fail_if true e s = (err e, s)
fail_if false e s = (ok tt, s)

abbrev pub modify : {S : Type 0} → (S → S) → Op S (Unit {0})
modify f s = (ok tt, f s)

-- A property of the state that a call keeps, whether it succeeds or fails.
pub record Keeps {S A : Type 0} (P : S → Type 0) (m : Op S A) : Type 0 where
  pub keep : (s : S) → P s → P ((m s).1)

module _ {S : Type 0} (P : S → Type 0) where
  seguir-Keeps :
      {A B : Type 0} (f : A → Op S B) (r : Result A × S)
      → ((a : A) → Keeps P (f a))
      → P r.1
      → P ((seguir f r).1)
  seguir-Keeps f (ok a, s) k p = (k a).keep s p
  seguir-Keeps f (err e, s) k p = p

  pub >>=-Keeps :
      {A B : Type 0} (m : Op S A) (f : A → Op S B)
      → Keeps P m
      → ((a : A) → Keeps P (f a))
      → Keeps P (m >>= f)
  unfolding ◌>>=◌
  >>=-Keeps m f km kf = record { keep = λ s p. seguir-Keeps f (m s) kf (km.keep s p) }

  pub >>-Keeps : {A B : Type 0} (m : Op S A) (k : Op S B) → Keeps P m → Keeps P k → Keeps P (m >> k)
  unfolding ◌>>◌
  >>-Keeps m k km kk = >>=-Keeps m (λ _. k) km (λ _. kk)

  pub or_fail-Keeps : {A : Type 0} (o : Option A) (e : Error) → Keeps P (or_fail o e)
  or_fail-Keeps none e = record { keep = λ s p. p }
  or_fail-Keeps (some a) e = record { keep = λ s p. p }

  pub fail_if-Keeps : (b : Bool) (e : Error) → Keeps P (fail_if b e)
  fail_if-Keeps true e = record { keep = λ s p. p }
  fail_if-Keeps false e = record { keep = λ s p. p }

  -- Calls that never change the state.
  pub lift-Keeps : {A : Type 0} (r : Result A) → Keeps P (lift r)
  lift-Keeps r = record { keep = λ s p. p }

  pub gets-Keeps : {A : Type 0} (f : S → A) → Keeps P (gets f)
  gets-Keeps f = record { keep = λ s p. p }

  pub pure-Keeps : {A : Type 0} (a : A) → Keeps P (pure a)
  pure-Keeps a = record { keep = λ s p. p }

  pub fail-Keeps : (A : Type 0) (e : Error) → Keeps {A = A} P (fail e)
  fail-Keeps A e = record { keep = λ s p. p }
