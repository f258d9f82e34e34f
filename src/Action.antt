-- ===== src/Action.antt =====
-- The result of a call, the errors of the packages, and calls that read and change a state of
-- tables. The Go functions return at the first error and the handler then rolls the transaction
-- back (apps/api/transport/http/*.go), so an error carries no state.
pub mod Keeps
use consorcioabierto.Prelude.{
  Bool, true, false, Option, none, some, ◌≡◌, refl, sym, ap, inl, inr, if◌then◌else◌, Bool-cases,
}

pub data Error : Type 0 where
  -- internal/expensas
  liquidacion_not_found liquidacion_invalid liquidacion_transicion_invalida : Error
  liquidacion_conflict liquidacion_version_mismatch : Error
  liquidacion_sin_gastos liquidacion_sin_ufs idempotency_conflict : Error
  calculo_vacio calculo_sin_ufs calculo_sin_coef_cero : Error
  -- internal/cuenta_corriente
  charge_not_found cargo_invalido : Error
  -- internal/cobranzas
  cobranza_invalid cobranza_not_found cobranza_duplicate_referencia : Error
  -- internal/reclamos
  invalid_transition invalid_id : Error
  categoria_obligatoria texto_corto texto_obligatorio adjunto_inexistente : Error
  asignar_sin_responsable reabrir_sin_motivo : Error
  -- internal/portal
  sin_vinculo : Error
  -- internal/notificaciones
  limite_invalido notificacion_not_found : Error
  -- internal/identity
  invalid_credentials user_disabled too_many_attempts : Error
  invalid_refresh_token refresh_token_expired refresh_token_reused : Error
  membership_not_found membership_inactive invalid_uuid : Error
  invalid_mfa_code invalid_mfa_token mfa_not_required : Error
  hash_invalido clave_no_configurada token_rechazado firma_fallida : Error
  rls_violation not_null_violation : Error
  -- the database: no row, a violated constraint, a number out of range; and a JSON text that
  -- does not decode
  no_rows check_violation unique_violation foreign_key_violation out_of_range : Error
  -- `payments_referencia_unique_idx` and `payments_idem_key_key`
  referencia_unique idem_key_unique : Error
  json_error : Error

pub data Result (A : Type 0) : Type 0 where
  ok : A → Result A
  err : Error → Result A

abbrev pub Action : Type 0 → Type 0 → Type 0
Action S A = S → Result (A × S)

module _ {S A : Type 0} where
  abbrev pub pure : A → Action S A
  pure a s = ok (a, s)

  abbrev pub raise : Error → Action S A
  raise e s = err e

  abbrev pub gets : (S → A) → Action S A
  gets f s = ok (f s, s)

  -- A pure call that may fail.
  abbrev pub lift : Result A → Action S A
  lift (ok a) s = ok (a, s)
  lift (err e) s = err e

  abbrev pub or_raise : Option A → Error → Action S A
  or_raise none e s = err e
  or_raise (some a) e s = ok (a, s)

infixl 5 ◌>>=◌ ◌>>◌
abbrev pub ◌>>=◌ : {S A B : Type 0} → Action S A → (A → Action S B) → Action S B
◌>>=◌ m f s = elim (m s) [ ok (a, s') ↦ f a s' | err e ↦ err e ]

abbrev pub ◌>>◌ : {S A B : Type 0} → Action S A → Action S B → Action S B
m >> k = m >>= λ _. k

abbrev pub raise_if : {S : Type 0} → Bool → Error → Action S (Unit {0})
raise_if true e s = err e
raise_if false e s = ok (tt, s)

abbrev pub modify : {S : Type 0} → (S → S) → Action S (Unit {0})
modify f s = ok (tt, f s)

-- Inversion of a call that succeeded: its first part did, and so did the rest from there.
pub >>=-eq-ok :
    {S A B : Type 0} (m : Action S A) (f : A → Action S B) (s : S) {r : B × S}
    → (m >>= f) s ≡ ok r
    → (a : A) × (s' : S) × (m s ≡ ok (a, s')) × (f a s' ≡ ok r)
>>=-eq-ok {S} {A} {B} m f s {r} h = go (m s) h
  where
    go :
        (x : Result (A × S))
        → (elim x [ ok (a, s') ↦ f a s' | err e ↦ err e ]) ≡ ok r
        → (a : A) × (s' : S) × (x ≡ ok (a, s')) × (f a s' ≡ ok r)
    go (ok (a, s')) h = (a, s', refl, h)
    go (err e) h = cc

pub ok_inj : {A : Type 0} {a b : A} → Result.ok a ≡ ok b → a ≡ b
ok_inj h = cc

-- Inversion of a guard that raises: it did not fire.
pub guard-ok :
    {A : Type 0} (t : Bool) (e : Error) (x : Result A) {r : A}
    → (if t then err e else x) ≡ ok r
    → (t ≡ false) × (x ≡ ok r)
guard-ok t e x h = elim (Bool-cases t) [
  | inl fired ↦ cc (rw fired at h)
  | inr passed ↦ (passed, rw passed at h)
]

pub raise_if-ok :
    {S : Type 0} (t : Bool) (e : Error) (s : S) {r : Unit {0} × S}
    → raise_if t e s ≡ ok r
    → (t ≡ false) × (r ≡ (tt, s))
raise_if-ok true e s h = cc
raise_if-ok false e s h = (refl, sym (ok_inj h))

pub or_raise-ok :
    {S A : Type 0} (o : Option A) (e : Error) (s : S) {a : A} {s' : S}
    → or_raise o e s ≡ ok (a, s')
    → (o ≡ some a) × (s' ≡ s)
or_raise-ok none e s h = cc
or_raise-ok (some a) e s h =
    let same = ok_inj h in (ap (λ p. some p.0) same, sym (ap (λ p. p.1) same))

-- A call that succeeds goes on with its result.
pub bind_after :
    {S A B : Type 0} (m : Action S A) (f : A → Action S B) (s : S) (a : A) (s' : S)
    → m s ≡ ok (a, s')
    → (m >>= f) s ≡ f a s'
bind_after m f s a s' h = ap (λ r. elim r [ ok (a, s') ↦ f a s' | err e ↦ err e ]) h

-- A call that fails ends there.
pub bind_fails :
    {S A B : Type 0} (m : Action S A) (f : A → Action S B) (s : S) (e : Error)
    → m s ≡ err e
    → (m >>= f) s ≡ err e
bind_fails m f s e h = ap (λ r. elim r [ ok (a, s') ↦ f a s' | err e ↦ err e ]) h

-- The same for a pure call, and for a lookup.
pub lift_after :
    {S A B : Type 0} (x : Result A) (f : A → Action S B) (s : S) (a : A)
    → x ≡ ok a
    → (lift x >>= f) s ≡ f a s
lift_after x f s a h = bind_after (lift x) f s a s (ap (λ r. lift r s) h)

pub lift_fails :
    {S A B : Type 0} (x : Result A) (f : A → Action S B) (s : S) (e : Error)
    → x ≡ err e
    → (lift x >>= f) s ≡ err e
lift_fails x f s e h = bind_fails (lift x) f s e (ap (λ r. lift r s) h)

pub or_raise_after :
    {S A B : Type 0} (o : Option A) (e : Error) (f : A → Action S B) (s : S) (a : A)
    → o ≡ some a
    → (or_raise o e >>= f) s ≡ f a s
or_raise_after o e f s a h = bind_after (or_raise o e) f s a s (ap (λ r. or_raise r e s) h)

pub lift-ok :
    {S A : Type 0} (x : Result A) (s : S) {a : A} {s' : S}
    → lift x s ≡ ok (a, s')
    → (x ≡ ok a) × (s' ≡ s)
lift-ok (err e) s h = cc
lift-ok (ok a) s h = let same = ok_inj h in (ap (λ p. ok p.0) same, sym (ap (λ p. p.1) same))

-- Inversion of a lookup that has to find its row.
pub lookup-ok :
    {S A B : Type 0} (g : S → Option A) (e : Error) (f : A → Action S B) (s : S) {r : B × S}
    → (gets g >>= λ o. or_raise o e >>= f) s ≡ ok r
    → (a : A) × (g s ≡ some a) × (f a s ≡ ok r)
lookup-ok {S} {A} {B} g e f s {r} h = go (g s) h
  where
    go : (o : Option A) → (or_raise o e >>= f) s ≡ ok r → (a : A) × (o ≡ some a) × (f a s ≡ ok r)
    go none h = cc
    go (some a) h = (a, refl, h)
