-- ===== src/Expensas/Calculo/Sum.antt =====
-- What is distributed adds up to what was spent.
use consorcioabierto.Prelude.{
  ◌≡◌, refl, inl, inr, Bool, true, false, List, [], ◌∷◌, arith, ◌||◌, Bool-cases, any_row,
}
use consorcioabierto.Prelude.Int.{
  ℤ, pos, ◌+ℤ◌, ◌-ℤ◌, one_part, ◌≤ℤ◌, ltb_ℤ, leb_ℤ, leb_ℤ→≤ℤ, ltb_ℤ→≤ℤ, int_laws,
}
use consorcioabierto.Prelude.Int64.{
  bits, add64, sub64, bits-lt, bits_laws, IsInt64, sub64_below, sub64_id, bits_zero, sub64-IsInt64,
}
use consorcioabierto.Env.{Floats, FloatLaws}
use consorcioabierto.Expensas.Calculo.{
  ConceptoCalculo, UnidadDistribucion, repartir, residuo, share,
}

-- A rounded share moves from what remains to its unit.
move_share :
    (t r sum sum' left remain : ℤ)
    → bits (sum' +ℤ left) ≡ bits (sum +ℤ sub64 remain r)
    → bits (add64 t r +ℤ sum' +ℤ left) ≡ bits (t +ℤ sum +ℤ remain)
move_share t r sum sum' left remain h =
    omega (bits_laws, bits-lt t, bits-lt r, bits-lt sum, bits-lt sum', bits-lt left, bits-lt remain)

keep_share :
    (t sum sum' left remain : ℤ)
    → bits (sum' +ℤ left) ≡ bits (sum +ℤ remain)
    → bits (t +ℤ sum' +ℤ left) ≡ bits (t +ℤ sum +ℤ remain)
keep_share t sum sum' left remain h = omega bits_laws

sub64_nonneg : (a b : ℤ) → IsInt64 a → pos 0 ≤ℤ b → b ≤ℤ a → pos 0 ≤ℤ sub64 a b
sub64_nonneg a b i h k = rw (sub64_below a b i h k) (omega int_laws)

sub64_self : (a : ℤ) → pos 0 ≤ℤ sub64 a a
sub64_self a = rw (sub64_id a a (omega (int_laws, one_part (a -ℤ a)))) (omega int_laws)

module _ (f : Floats) where
  open f use {Float}

  -- The exact sum of what the units were given.
  abbrev pub total_of : List (UnidadDistribucion Float) → ℤ
  total_of [] = pos 0
  total_of (u ∷ us) = u.total_cents +ℤ total_of us

  abbrev pub has_positive : List (UnidadDistribucion Float) → Bool
  has_positive us = any_row (λ u. f.lt f.zero u.coeficiente) us

  pub repartir-total :
      (total : Float) (c : ConceptoCalculo) (remain : ℤ) (us : List (UnidadDistribucion Float))
      → let (us', left) = repartir f total c remain us in
        bits (total_of us' +ℤ left) ≡ bits (total_of us +ℤ remain)
  unfolding repartir
  repartir-total total c remain [] = refl
  repartir-total total c remain (u ∷ us) =
      elim (Bool-cases (f.eq total f.zero || f.eq u.coeficiente f.zero)) [
        | inl skip ↦ rw skip (keep_share _ _ _ _ _ (repartir-total total c remain us))
        | inr given ↦ rw given (
            move_share _ _ _ _ _ _ (
              repartir-total total c
                (sub64 remain (share f total c.importe_cents remain u.coeficiente)) us))
      ]

  pub residuo-total :
      (remain : ℤ) (us : List (UnidadDistribucion Float))
      → pos 0 ≤ℤ remain
      → has_positive us ≡ true
      → bits (total_of (residuo f remain us)) ≡ bits (total_of us +ℤ remain)
  unfolding residuo any_row
  residuo-total remain [] h p = cc
  residuo-total remain (u ∷ us) h p = elim (Bool-cases (leb_ℤ remain (pos 0))) [
    | inl nothing ↦
        rw nothing (omega (bits_laws, bits_zero remain h (leb_ℤ→≤ℤ remain (pos 0) nothing)))
    | inr more ↦ rw more (elim (Bool-cases (f.lt f.zero u.coeficiente)) [
      | inl first ↦ rw first (omega bits_laws)
      | inr other ↦ rw other (omega (bits_laws, residuo-total remain us h (rw other at p)))
    ])
  ]

  pub share_bounds :
      (total : Float) (importe remain : ℤ) (coef : Float)
      → pos 0 ≤ℤ remain
      → let s = share f total importe remain coef in (pos 0 ≤ℤ s) × (s ≤ℤ remain)
  unfolding share
  share_bounds total importe remain coef h = ground arith

  share_negative :
      (total : Float) (importe remain : ℤ) (coef : Float)
      → ltb_ℤ remain (pos 0) ≡ true
      → share f total importe remain coef ≡ remain
  unfolding share
  share_negative total importe remain coef h = ground arith

  left_nonneg :
      (total : Float) (c : ConceptoCalculo) (remain : ℤ) (us : List (UnidadDistribucion Float))
      → IsInt64 remain
      → pos 0 ≤ℤ remain
      → pos 0 ≤ℤ (repartir f total c remain us).1
  unfolding repartir
  left_nonneg total c remain [] i h = h
  left_nonneg total c remain (u ∷ us) i h =
      elim (Bool-cases (f.eq total f.zero || f.eq u.coeficiente f.zero)) [
        | inl skip ↦ rw skip (left_nonneg total c remain us i h)
        | inr given ↦ rw given (
            left_nonneg total c (sub64 remain (share f total c.importe_cents remain u.coeficiente))
              us (sub64-IsInt64 _ _)
              (sub64_nonneg remain _ i (share_bounds total c.importe_cents remain u.coeficiente h).0
                (share_bounds total c.importe_cents remain u.coeficiente h).1))
      ]

  positive_tail :
      (u : UnidadDistribucion Float) (us : List (UnidadDistribucion Float))
      → FloatLaws f
      → f.eq u.coeficiente f.zero ≡ true
      → has_positive (u ∷ us) ≡ true
      → has_positive us ≡ true
  unfolding any_row
  positive_tail u us laws z p = ground (arith, laws.pos-eq u.coeficiente)

  -- A negative amount goes whole to the first unit that takes part, so nothing is left either.
  left_negative :
      (total : Float) (c : ConceptoCalculo) (remain : ℤ) (us : List (UnidadDistribucion Float))
      → FloatLaws f
      → f.eq total f.zero ≡ false
      → has_positive us ≡ true
      → ltb_ℤ remain (pos 0) ≡ true
      → pos 0 ≤ℤ (repartir f total c remain us).1
  unfolding repartir any_row
  left_negative total c remain [] laws t p n = cc
  left_negative total c remain (u ∷ us) laws t p n = elim (Bool-cases (f.eq u.coeficiente f.zero)) [
    | inl skip ↦
        rw (t, skip) (left_negative total c remain us laws t (positive_tail u us laws skip p) n)
    | inr given ↦
        rw (t, given, share_negative total c.importe_cents remain u.coeficiente n)
          (left_nonneg total c (sub64 remain remain) us (sub64-IsInt64 _ _) (sub64_self remain))
  ]

  pub repartir_left :
      (total : Float) (c : ConceptoCalculo) (remain : ℤ) (us : List (UnidadDistribucion Float))
      → FloatLaws f
      → f.eq total f.zero ≡ false
      → has_positive us ≡ true
      → IsInt64 remain
      → pos 0 ≤ℤ (repartir f total c remain us).1
  repartir_left total c remain us laws t p i = elim (Bool-cases (ltb_ℤ remain (pos 0))) [
    | inl negative ↦ left_negative total c remain us laws t p negative
    | inr nonneg ↦ left_nonneg total c remain us i (ltb_ℤ→≤ℤ remain (pos 0) nonneg)
  ]

  -- The coefficients stay as they are.
  pub repartir-positive :
      (total : Float) (c : ConceptoCalculo) (remain : ℤ) (us : List (UnidadDistribucion Float))
      → has_positive (repartir f total c remain us).0 ≡ has_positive us
  unfolding repartir any_row
  repartir-positive total c remain [] = refl
  repartir-positive total c remain (u ∷ us) =
      elim (Bool-cases (f.eq total f.zero || f.eq u.coeficiente f.zero)) [
        | inl skip ↦ rw (skip, repartir-positive total c remain us)
        | inr given ↦ rw (
          given,
          repartir-positive total c
              (sub64 remain (share f total c.importe_cents remain u.coeficiente)) us,
        )
      ]

  pub residuo-positive :
      (remain : ℤ) (us : List (UnidadDistribucion Float))
      → has_positive (residuo f remain us) ≡ has_positive us
  unfolding residuo any_row
  residuo-positive remain [] = refl
  residuo-positive remain (u ∷ us) = ground (arith, residuo-positive remain us)
