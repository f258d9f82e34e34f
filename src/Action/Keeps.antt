-- ===== src/Action/Keeps.antt =====
-- Calls that keep a property of the tables where they succeed, and how they compose.
use consorcioabierto.Prelude.{Bool, Option, ◌≡◌, ap, sym}
use mathlib.Core.Path.{subst}
use consorcioabierto.Action.{
  Action, Error, Result, ok, ok_inj, pure, gets, lift, or_raise, raise_if, ◌>>=◌, >>=-eq-ok,
  lift-ok, or_raise-ok, raise_if-ok,
}

module _ {S : Type 0} (P : S → Type 0) where
  abbrev pub Keeps : {A : Type 0} → Action S A → Type 0
  Keeps {A} m = (s : S) (a : A) (s' : S) → m s ≡ ok (a, s') → P s → P s'

  pub >>=-Keeps :
      {A B : Type 0} (m : Action S A) (f : A → Action S B)
      → Keeps m
      → ((a : A) → Keeps (f a))
      → Keeps (m >>= f)
  >>=-Keeps m f km kf s b s' h p =
      let (a, s₁, e₁, e₂) = >>=-eq-ok m f s h in kf a s₁ b s' e₂ (km s a s₁ e₁ p)

  pub lift-Keeps : {A : Type 0} (x : Result A) → Keeps (lift x)
  lift-Keeps x s a s' h p = subst P (sym ((lift-ok x s h).1)) p

  pub or_raise-Keeps : {A : Type 0} (o : Option A) (e : Error) → Keeps (or_raise o e)
  or_raise-Keeps o e s a s' h p = subst P (sym ((or_raise-ok o e s h).1)) p

  pub raise_if-Keeps : (b : Bool) (e : Error) → Keeps (raise_if b e)
  raise_if-Keeps b e s a s' h p = subst P (ap (λ r. r.1) (sym ((raise_if-ok b e s h).1))) p

  pub gets-Keeps : {A : Type 0} (f : S → A) → Keeps (gets f)
  gets-Keeps f s a s' h p = subst P (ap (λ r. r.1) (ok_inj h)) p

  pub pure-Keeps : {A : Type 0} (x : A) → Keeps (pure x)
  pure-Keeps x s a s' h p = subst P (ap (λ r. r.1) (ok_inj h)) p
