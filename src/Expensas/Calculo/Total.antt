-- ===== src/Expensas/Calculo/Total.antt =====
-- The totals of a distribution: all that was spent is charged, whatever the rounding of float64.
use consorcioabierto.Prelude.{
  ◌≡◌, refl, inl, inr, true, false, List, [], ◌∷◌, map, arith, ◌∙◌, sym, Bool-cases, any_row, All,
}
use consorcioabierto.Prelude.Int.{ℤ, pos, ◌+ℤ◌, +ℤ-zero, zero-+ℤ}
use consorcioabierto.Prelude.Int64.{
  bits, add64, wrap64, wrap64-IsInt64, bits-wrap64, bits_laws, IsInt64, eq_of_bits, add64-IsInt64,
  sub64_eq,
}
use consorcioabierto.Prelude.Sort.{sort_by, All-sort_by}
use consorcioabierto.Action.{ok}
use consorcioabierto.Env.{Floats, FloatLaws, IsNumber}
use consorcioabierto.Expensas.Calculo.{
  ConceptoCalculo, UfCoef, UnidadDistribucion, DistribucionResult, codigo_less, coef_total,
  new_unidad, repartir, distribuir_concepto, distribuir_conceptos, total_gastos, total_distribuido,
  result_of, distribuir,
}
use consorcioabierto.Expensas.Calculo.Sum.{
  total_of, has_positive, repartir-total, residuo-total, repartir_left, repartir-positive,
  residuo-positive,
}

-- The exact sum of the amounts of the concepts.
abbrev pub sum_importes : List ConceptoCalculo → ℤ
sum_importes [] = pos 0
sum_importes (c ∷ cs) = c.importe_cents +ℤ sum_importes cs

abbrev pub AreInt64 : List ConceptoCalculo → Type 0
AreInt64 cs = All (λ c. IsInt64 c.importe_cents) cs

module _ (f : Floats) where
  open f use {Float}

  abbrev pub AreNumbers : List (UfCoef Float) → Type 0
  AreNumbers us = All (λ u. IsNumber f u.coeficiente) us

  concepto-total :
      (total : Float) (c : ConceptoCalculo) (us : List (UnidadDistribucion Float))
      → FloatLaws f
      → f.eq total f.zero ≡ false
      → has_positive f us ≡ true
      → IsInt64 c.importe_cents
      → bits (total_of f (distribuir_concepto f total c us))
        ≡ bits (total_of f us +ℤ c.importe_cents)
  unfolding distribuir_concepto
  concepto-total total c us laws t p i =
      residuo-total f (repartir f total c c.importe_cents us).1
        (repartir f total c c.importe_cents us).0
        (repartir_left f total c c.importe_cents us laws t p i)
        (repartir-positive f total c c.importe_cents us ∙ p)
      ∙ repartir-total f total c c.importe_cents us

  pub concepto-positive :
      (total : Float) (c : ConceptoCalculo) (us : List (UnidadDistribucion Float))
      → has_positive f (distribuir_concepto f total c us) ≡ has_positive f us
  unfolding distribuir_concepto
  concepto-positive total c us =
      residuo-positive f (repartir f total c c.importe_cents us).1
        (repartir f total c c.importe_cents us).0
      ∙ repartir-positive f total c c.importe_cents us

  conceptos-total :
      (total : Float) (cs : List ConceptoCalculo) (us : List (UnidadDistribucion Float))
      → FloatLaws f
      → f.eq total f.zero ≡ false
      → has_positive f us ≡ true
      → AreInt64 cs
      → bits (total_of f (distribuir_conceptos f total cs us))
        ≡ bits (total_of f us +ℤ sum_importes cs)
  unfolding distribuir_conceptos
  conceptos-total total [] us laws t p i = rw +ℤ-zero
  conceptos-total total (c ∷ cs) us laws t p i = omega (
    bits_laws,
    conceptos-total total cs (distribuir_concepto f total c us) laws t
        (concepto-positive total c us ∙ p) i.1,
    concepto-total total c us laws t p i.0,
  )

  bits-total_gastos :
      (acc : ℤ) (cs : List ConceptoCalculo)
      → bits (total_gastos f acc cs) ≡ bits (acc +ℤ sum_importes cs)
  unfolding total_gastos
  bits-total_gastos acc [] = rw +ℤ-zero
  bits-total_gastos acc (c ∷ cs) =
      omega (bits_laws, bits-total_gastos (add64 acc c.importe_cents) cs)

  bits-total_distribuido :
      (acc : ℤ) (us : List (UnidadDistribucion Float))
      → bits (total_distribuido f acc us) ≡ bits (acc +ℤ total_of f us)
  unfolding total_distribuido
  bits-total_distribuido acc [] = rw +ℤ-zero
  bits-total_distribuido acc (u ∷ us) =
      omega (bits_laws, bits-total_distribuido (add64 acc u.total_cents) us)

  gastos-IsInt64 :
      (acc : ℤ) (cs : List ConceptoCalculo) → IsInt64 acc → IsInt64 (total_gastos f acc cs)
  unfolding total_gastos
  gastos-IsInt64 acc [] i = i
  gastos-IsInt64 acc (c ∷ cs) i = gastos-IsInt64 (add64 acc c.importe_cents) cs (add64-IsInt64 _ _)

  distribuido-IsInt64 :
      (acc : ℤ) (us : List (UnidadDistribucion Float))
      → IsInt64 acc
      → IsInt64 (total_distribuido f acc us)
  unfolding total_distribuido
  distribuido-IsInt64 acc [] i = i
  distribuido-IsInt64 acc (u ∷ us) i =
      distribuido-IsInt64 (add64 acc u.total_cents) us (add64-IsInt64 _ _)

  -- Where no coefficient is positive, neither is their sum.
  coef_total-le :
      (acc : Float) (us : List (UfCoef Float))
      → FloatLaws f
      → AreNumbers us
      → f.le acc f.zero ≡ true
      → has_positive f (map (new_unidad f) us) ≡ false
      → f.le (coef_total f acc us) f.zero ≡ true
  unfolding coef_total any_row
  coef_total-le acc [] laws n h p = h
  coef_total-le acc (u ∷ us) laws n h p =
      coef_total-le (f.add acc u.coeficiente) us laws n.1
        (laws.add-le acc u.coeficiente h (ground arith)) (ground arith)

  pub sorted_positive :
      (us : List (UfCoef Float))
      → FloatLaws f
      → AreNumbers us
      → f.le (coef_total f f.zero us) f.zero ≡ false
      → has_positive f (map (new_unidad f) us) ≡ true
  sorted_positive us laws n h = elim (Bool-cases (has_positive f (map (new_unidad f) us))) [
    | inl p ↦ p
    | inr none_positive ↦ cc (coef_total-le f.zero us laws n laws.zero-le none_positive)
  ]

  pub total_not_zero :
      (total : Float) → FloatLaws f → f.le total f.zero ≡ false → f.eq total f.zero ≡ false
  total_not_zero total laws h = ground (arith, laws.eq-le total)

  pub total_of-new : (us : List (UfCoef Float)) → total_of f (map (new_unidad f) us) ≡ pos 0
  total_of-new [] = refl
  total_of-new (u ∷ us) = rw (total_of-new us) (+ℤ-zero (pos 0))

  result-conserva :
      (cs : List ConceptoCalculo) (sorted : List (UfCoef Float)) (total : Float)
      → FloatLaws f
      → AreNumbers sorted
      → total ≡ coef_total f f.zero sorted
      → f.le total f.zero ≡ false
      → AreInt64 cs
      → let r = result_of f cs sorted total in
        (r.total_gastos_cents ≡ wrap64 (sum_importes cs))
        × (r.total_distribuido_cents ≡ r.total_gastos_cents)
        × (r.diferencia_cents ≡ pos 0)
        × (bits (total_of f r.unidades) ≡ bits (sum_importes cs))
  unfolding result_of
  result-conserva cs sorted total laws n e h i =
      let positive = sorted_positive sorted laws n (rw (← e) h) in
      let units =
        conceptos-total total cs (map (new_unidad f) sorted) laws (total_not_zero total laws h)
          positive i in
      let units' = rw (total_of-new sorted, zero-+ℤ) at units in
      let gastos = rw zero-+ℤ at (bits-total_gastos (pos 0) cs) in
      let distribuido = rw zero-+ℤ at (
        bits-total_distribuido (pos 0)
          (distribuir_conceptos f total cs (map (new_unidad f) sorted))) in
      let i0 : IsInt64 (pos 0) = omega arith in
      let charged =
        eq_of_bits _ _
          (distribuido-IsInt64 (pos 0) (distribuir_conceptos f total cs (map (new_unidad f) sorted))
            i0)
          (gastos-IsInt64 (pos 0) cs i0) (distribuido ∙ units' ∙ sym gastos) in
      (
        eq_of_bits _ _ (gastos-IsInt64 (pos 0) cs i0) (wrap64-IsInt64 (sum_importes cs))
            (gastos ∙ sym (bits-wrap64 (sum_importes cs))),
        charged,
        sub64_eq _ _ (sym charged),
        units',
      )

  -- What a distribution that succeeds has computed.
  pub distribuir-eq-ok :
      (cs : List ConceptoCalculo) (ufs : List (UfCoef Float)) (r : DistribucionResult Float)
      → distribuir f cs ufs ≡ ok r
      → let sorted = sort_by (codigo_less f) ufs in
        let total = coef_total f f.zero sorted in
        (f.le total f.zero ≡ false) × (r ≡ result_of f cs sorted total)
  unfolding distribuir
  distribuir-eq-ok [] ufs r h = cc
  distribuir-eq-ok (c ∷ cs) [] r h = cc
  distribuir-eq-ok (c ∷ cs) (u ∷ ufs) r h =
      elim (Bool-cases (f.le (coef_total f f.zero (sort_by (codigo_less f) (u ∷ ufs))) f.zero)) [
        | inl bad ↦ absurd (cc (rw bad at h))
        | inr good ↦ (good, cc (rw good at h))
      ]

  -- Where a distribution succeeds, it charges exactly what was spent, modulo the width of int64:
  -- the total of the expenses is the wrapped sum of the amounts, the total distributed is equal to
  -- it, the difference that is reported is 0, and the exact sum of the units' totals is the sum of
  -- the amounts modulo 2 ^ 64. It holds for every behaviour of float64 that satisfies the laws, and
  -- for coefficients that are numbers.
  pub distribuir_conserva :
      (cs : List ConceptoCalculo) (ufs : List (UfCoef Float)) (r : DistribucionResult Float)
      → FloatLaws f
      → AreInt64 cs
      → AreNumbers ufs
      → distribuir f cs ufs ≡ ok r
      → (r.total_gastos_cents ≡ wrap64 (sum_importes cs))
        × (r.total_distribuido_cents ≡ r.total_gastos_cents)
        × (r.diferencia_cents ≡ pos 0)
        × (bits (total_of f r.unidades) ≡ bits (sum_importes cs))
  distribuir_conserva cs ufs r laws i n h =
      let (good, e) = distribuir-eq-ok cs ufs r h in
      let sorted = sort_by (codigo_less f) ufs in
      rw e (
        result-conserva cs sorted (coef_total f f.zero sorted) laws
          (All-sort_by (codigo_less f) (λ u. IsNumber f u.coeficiente) ufs n) refl good i)
