-- ===== src/Cobranzas/Entrada/Valida.antt =====
-- What a validated request holds.
use consorcioabierto.Prelude.{
  ◌≡◌, refl, Bool, true, false, not, Option, none, some, inl, inr, Bool-cases, ℕ, [], ◌∷◌, ◌&&◌,
  if◌then◌else◌,
}
use consorcioabierto.Prelude.Int.{pos, ◌<ℤ◌, leb_ℤ, leb_ℤ→<ℤ}
use consorcioabierto.Prelude.Text.{
  Text, codes, text_eq, text_eq_sound, is_empty, is_space, trim_left, trim_right, trim_space,
}
use consorcioabierto.Prelude.Dates.{Date, parse_date, format_date}
use consorcioabierto.Action.{ok, err, ok_inj, guard-ok, cobranza_invalid}
use consorcioabierto.Env.{Uuid, Env}
use consorcioabierto.Queries.Payments.{canal_fits}
use consorcioabierto.Cobranzas.Entrada.{
  CobranzaInput, ValidatedCobranza, valid_canal, normalize_ref, currency_of, canal_of, validated,
  validate_rest, validate_cobranza_input,
}

-- A text does not begin, and does not end, with a space.
abbrev pub sin_espacio_inicial : Text → Bool
sin_espacio_inicial [] = true
sin_espacio_inicial (c ∷ s) = not (is_space c)

abbrev pub sin_espacio_final : Text → Bool
sin_espacio_final [] = true
sin_espacio_final (c ∷ []) = not (is_space c)
sin_espacio_final (c ∷ d ∷ s) = sin_espacio_final (d ∷ s)

-- A reference is absent, or has something in it that neither begins nor ends with a space.
abbrev pub NotBlank : Option Text → Type 0
NotBlank none = Unit {0}
NotBlank (some s) =
    (is_empty s ≡ false) × (sin_espacio_inicial s ≡ true) × (sin_espacio_final s ≡ true)

final_mas :
    (c : ℕ) (rest : Text)
    → sin_espacio_final rest ≡ true
    → sin_espacio_final (if is_space c && is_empty rest then [] else c ∷ rest) ≡ true
unfolding is_empty
final_mas c (d ∷ rest) h = elim (Bool-cases (is_space c)) [
  | inl es ↦ rw es h
  | inr otra ↦ rw otra h
]
final_mas c [] h = elim (Bool-cases (is_space c)) [
  | inl es ↦ rw es refl
  | inr otra ↦ rw (otra, otra) refl
]

trim_right-final : (s : Text) → sin_espacio_final (trim_right s) ≡ true
unfolding trim_right
trim_right-final [] = refl
trim_right-final (c ∷ s) = final_mas c (trim_right s) (trim_right-final s)

final_cola : (c : ℕ) (s : Text) → sin_espacio_final (c ∷ s) ≡ true → sin_espacio_final s ≡ true
final_cola c [] h = refl
final_cola c (d ∷ s) h = h

trim_left-bordes :
    (s : Text)
    → sin_espacio_final s ≡ true
    → (sin_espacio_inicial (trim_left s) ≡ true) × (sin_espacio_final (trim_left s) ≡ true)
unfolding trim_left
trim_left-bordes [] h = (refl, h)
trim_left-bordes (c ∷ s) h = elim (Bool-cases (is_space c)) [
  | inl es ↦ rw es (trim_left-bordes s (final_cola c s h))
  | inr otra ↦ rw (otra, otra) (refl, h)
]

trim_space-bordes :
    (s : Text)
    → (sin_espacio_inicial (trim_space s) ≡ true) × (sin_espacio_final (trim_space s) ≡ true)
unfolding trim_space
trim_space-bordes s = trim_left-bordes (trim_right s) (trim_right-final s)

normalize_ref-NotBlank : (o : Option Text) → NotBlank (normalize_ref o)
unfolding normalize_ref
normalize_ref-NotBlank none = tt
normalize_ref-NotBlank (some s) = elim (Bool-cases (is_empty (trim_space s))) [
  | inl blank ↦ rw blank tt
  | inr full ↦ let (inicio, fin) = trim_space-bordes s in rw full (full, inicio, fin)
]

not-true : (b : Bool) → not b ≡ false → b ≡ true
not-true true h = refl
not-true false h = cc

-- The channels of the program are those of `payments_canal_check`.
canal_en_base : (c : Text) → valid_canal c ≡ true → canal_fits c ≡ true
unfolding valid_canal canal_fits
canal_en_base c h = h

module _ (env : Env) where
  pub record IsValid (i : CobranzaInput) (v : ValidatedCobranza) : Type 0 where
    pub importe : (v.importe ≡ i.importe.amount_cents) × (pos 0 <ℤ v.importe)
    pub currency : v.currency ≡ codes "ARS"
    pub canal : canal_fits v.canal ≡ true
    pub unidad : env.scan_uuid (trim_space i.unidad_id) ≡ some v.unidad_id
    pub referencia : NotBlank v.referencia
    pub fecha :
        (t : Date) × (parse_date (trim_space i.fecha) ≡ some t)
        × (env.scan_date (format_date t) ≡ some v.fecha)

  rest-IsValid :
      (i : CobranzaInput) (t : Date) (v : ValidatedCobranza)
      → parse_date (trim_space i.fecha) ≡ some t
      → validate_rest env i t ≡ ok v
      → IsValid i v
  unfolding validate_rest validated
  rest-IsValid i t v parsed h =
      let (positive, h₁) = guard-ok (leb_ℤ i.importe.amount_cents (pos 0)) cobranza_invalid _ h in
      let (ars, h₂) =
        guard-ok (not (text_eq (currency_of i.importe.currency) (codes "ARS"))) cobranza_invalid _
          h₁ in
      let (canal, h₃) = guard-ok (not (valid_canal (canal_of i.canal))) cobranza_invalid _ h₂ in
      scanned (env.scan_uuid (trim_space i.unidad_id)) (env.scan_date (format_date t)) refl refl
        (leb_ℤ→<ℤ i.importe.amount_cents (pos 0) positive)
        (text_eq_sound (currency_of i.importe.currency) (codes "ARS") (not-true _ ars))
        (not-true _ canal) h₃
    where
      scanned :
          (u : Option Uuid) (d : Option Date)
          → env.scan_uuid (trim_space i.unidad_id) ≡ u
          → env.scan_date (format_date t) ≡ d
          → pos 0 <ℤ i.importe.amount_cents
          → currency_of i.importe.currency ≡ codes "ARS"
          → valid_canal (canal_of i.canal) ≡ true
          → validated env i u d ≡ ok v
          → IsValid i v
      scanned none d su sd positive ars canal k = cc
      scanned (some uid) none su sd positive ars canal k = cc
      scanned (some uid) (some d) su sd positive ars canal k = rw (← ok_inj k) (record {
        importe = (refl, positive);
        currency = ars;
        canal = canal_en_base _ canal;
        unidad = su;
        referencia = normalize_ref-NotBlank i.referencia;
        fecha = (t, parsed, sd);
      })

  -- A request that is accepted has a positive amount, which is kept, in ARS, a channel that the check
  -- of the table of payments holds for, a unit and a date that scan, and either no reference or one
  -- that is not empty and neither begins nor ends with a space.
  pub validate-IsValid :
      (i : CobranzaInput) (v : ValidatedCobranza)
      → validate_cobranza_input env i ≡ ok v
      → IsValid i v
  unfolding validate_cobranza_input
  validate-IsValid i v h =
      let (named, k) = guard-ok (is_empty (trim_space i.unidad_id)) cobranza_invalid _ h in
      go (parse_date (trim_space i.fecha)) refl k
    where
      go :
          (o : Option Date)
          → parse_date (trim_space i.fecha) ≡ o
          → (elim o [ none ↦ err cobranza_invalid | some t ↦ validate_rest env i t ]) ≡ ok v
          → IsValid i v
      go none p k = cc
      go (some t) p k = rest-IsValid i t v p k
