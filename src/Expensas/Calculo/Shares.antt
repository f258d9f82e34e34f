-- ===== src/Expensas/Calculo/Shares.antt =====
-- What a single unit is charged.
use consorcioabierto.Prelude.{
  ◌≡◌, refl, any_row, inl, inr, true, List, [], ◌∷◌, map, arith, ◌∙◌, ◌||◌, Bool-cases, All,
}
use consorcioabierto.Prelude.Int.{
  ℤ, pos, ◌+ℤ◌, ◌-ℤ◌, ◌≤ℤ◌, leb_ℤ, int_laws, one_part, parts_of_eq, leb_ℤ→≤ℤ, +ℤ-zero, zero-+ℤ,
}
use consorcioabierto.Prelude.Int64.{add64, sub64, add64_id, sub64_below, IsInt64}
use consorcioabierto.Action.{ok}
use consorcioabierto.Prelude.Sort.{sort_by, All-sort_by}
use consorcioabierto.Env.{Floats, FloatLaws, IsNumber}
use consorcioabierto.Expensas.Calculo.{
  ConceptoCalculo, UfCoef, UnidadDistribucion, DistribucionResult, new_unidad, share, repartir,
  residuo, distribuir_concepto, distribuir_conceptos, result_of, distribuir, codigo_less,
  coef_total,
}
use consorcioabierto.Expensas.Calculo.Sum.{total_of, has_positive, share_bounds, repartir-positive}
use consorcioabierto.Expensas.Calculo.Total.{
  sum_importes, AreNumbers, distribuir-eq-ok, concepto-positive, total_of-new, sorted_positive,
}

abbrev pub max_int64 : ℤ
max_int64 = pos 9223372036854775807

-- A sum in range of numbers that are not negative is computed exactly.
pub add64_nonneg : (a b : ℤ) → pos 0 ≤ℤ a → pos 0 ≤ℤ b → a +ℤ b ≤ℤ max_int64 → add64 a b ≡ a +ℤ b
add64_nonneg a b h k m = add64_id a b (omega (int_laws, one_part (a +ℤ b)))

pub IsInt64-nonneg : (a : ℤ) → pos 0 ≤ℤ a → a ≤ℤ max_int64 → IsInt64 a
IsInt64-nonneg a h m = omega (int_laws, one_part a)

keep_exact :
    (t sum sum' left remain : ℤ)
    → sum' +ℤ left ≡ sum +ℤ remain
    → t +ℤ sum' +ℤ left ≡ t +ℤ sum +ℤ remain
keep_exact t sum sum' left remain h = omega (int_laws, parts_of_eq _ _ h)

move_exact :
    (t r sum sum' left remain x : ℤ)
    → x ≡ remain -ℤ r
    → sum' +ℤ left ≡ sum +ℤ x
    → t +ℤ r +ℤ sum' +ℤ left ≡ t +ℤ sum +ℤ remain
move_exact t r sum sum' left remain x k h = omega (int_laws, parts_of_eq _ _ k, parts_of_eq _ _ h)

nothing_left : (sum remain : ℤ) → pos 0 ≤ℤ remain → remain ≤ℤ pos 0 → sum ≡ sum +ℤ remain
nothing_left sum remain h k = omega int_laws

swap_exact : (t remain sum : ℤ) → t +ℤ remain +ℤ sum ≡ t +ℤ sum +ℤ remain
swap_exact t remain sum = omega int_laws

keep_sum : (t sum sum' remain : ℤ) → sum' ≡ sum +ℤ remain → t +ℤ sum' ≡ t +ℤ sum +ℤ remain
keep_sum t sum sum' remain h = omega (int_laws, parts_of_eq _ _ h)

+ℤ_assoc : (a b c : ℤ) → a +ℤ b +ℤ c ≡ a +ℤ (b +ℤ c)
+ℤ_assoc a b c = omega int_laws

abbrev pub NonNegImportes : List ConceptoCalculo → Type 0
NonNegImportes cs = All (λ c. pos 0 ≤ℤ c.importe_cents) cs

sum_importes_nonneg : (cs : List ConceptoCalculo) → NonNegImportes cs → pos 0 ≤ℤ sum_importes cs
sum_importes_nonneg [] h = omega arith
sum_importes_nonneg (c ∷ cs) h = omega (int_laws, sum_importes_nonneg cs h.1, h.0)

module _ (f : Floats) where
  open f use {Float}

  abbrev pub NonNeg : List (UnidadDistribucion Float) → Type 0
  NonNeg us = All (λ u. pos 0 ≤ℤ u.total_cents) us

  total_of_nonneg : (us : List (UnidadDistribucion Float)) → NonNeg us → pos 0 ≤ℤ total_of f us
  total_of_nonneg [] h = omega arith
  total_of_nonneg (u ∷ us) h = omega (int_laws, total_of_nonneg us h.1, h.0)

  repartir-NonNeg :
      (total : Float) (c : ConceptoCalculo) (remain : ℤ) (us : List (UnidadDistribucion Float))
      → pos 0 ≤ℤ remain
      → NonNeg us
      → total_of f us +ℤ remain ≤ℤ max_int64
      → let (us', left) = repartir f total c remain us in
        NonNeg us' × (total_of f us' +ℤ left ≡ total_of f us +ℤ remain) × (pos 0 ≤ℤ left)
  unfolding repartir
  repartir-NonNeg total c remain [] h n m = (tt, refl, h)
  repartir-NonNeg total c remain (u ∷ us) h n m =
      elim (Bool-cases (f.eq total f.zero || f.eq u.coeficiente f.zero)) [
        | inl skip ↦ rw skip (
            let ih = repartir-NonNeg total c remain us h n.1 (omega (int_laws, n.0)) in
            ((n.0, ih.0), keep_exact _ _ _ _ _ ih.1, ih.2))
        | inr given ↦ rw given (
            let r = share f total c.importe_cents remain u.coeficiente in
            let b = share_bounds f total c.importe_cents remain u.coeficiente h in
            let room = total_of_nonneg us n.1 in
            let added : add64 u.total_cents r ≡ u.total_cents +ℤ r =
              add64_nonneg u.total_cents r n.0 b.0 (omega (int_laws, b.1, n.0)) in
            let taken : sub64 remain r ≡ remain -ℤ r =
              sub64_below remain r (IsInt64-nonneg remain h (omega (int_laws, n.0))) b.0 b.1 in
            let ih =
              repartir-NonNeg total c (sub64 remain r) us (rw taken (omega (int_laws, b.1))) n.1
                (rw taken (omega (int_laws, n.0, b.0))) in
            (
              (rw added (omega (int_laws, n.0, b.0)), ih.0),
              rw added (move_exact _ _ _ _ _ _ (sub64 remain r) taken ih.1),
              ih.2,
            ))
      ]

  residuo-NonNeg :
      (remain : ℤ) (us : List (UnidadDistribucion Float))
      → pos 0 ≤ℤ remain
      → NonNeg us
      → total_of f us +ℤ remain ≤ℤ max_int64
      → has_positive f us ≡ true
      → NonNeg (residuo f remain us) × (total_of f (residuo f remain us) ≡ total_of f us +ℤ remain)
  unfolding residuo any_row
  residuo-NonNeg remain [] h n m p = cc
  residuo-NonNeg remain (u ∷ us) h n m p = elim (Bool-cases (leb_ℤ remain (pos 0))) [
    | inl nothing ↦ rw nothing (n, nothing_left _ _ h (leb_ℤ→≤ℤ remain (pos 0) nothing))
    | inr more ↦ rw more (elim (Bool-cases (f.lt f.zero u.coeficiente)) [
      | inl first ↦ rw first (
          let room = total_of_nonneg us n.1 in
          let added : add64 u.total_cents remain ≡ u.total_cents +ℤ remain =
            add64_nonneg u.total_cents remain n.0 h (omega (int_laws, n.0)) in
          ((rw added (omega (int_laws, n.0)), n.1), rw added (swap_exact _ _ _)))
      | inr other ↦ rw other (
          let ih = residuo-NonNeg remain us h n.1 (omega (int_laws, n.0)) (rw other at p) in
          ((n.0, ih.0), keep_sum _ _ _ _ ih.1))
    ])
  ]

  concepto-NonNeg :
      (total : Float) (c : ConceptoCalculo) (us : List (UnidadDistribucion Float))
      → pos 0 ≤ℤ c.importe_cents
      → NonNeg us
      → total_of f us +ℤ c.importe_cents ≤ℤ max_int64
      → has_positive f us ≡ true
      → let us' = distribuir_concepto f total c us in
        NonNeg us' × (total_of f us' ≡ total_of f us +ℤ c.importe_cents)
  unfolding distribuir_concepto
  concepto-NonNeg total c us h n m p =
      let first = repartir-NonNeg total c c.importe_cents us h n m in
      let (us', left) = repartir f total c c.importe_cents us in
      let second =
        residuo-NonNeg left us' first.2 first.0 (rw first.1 m)
          (repartir-positive f total c c.importe_cents us ∙ p) in
      (second.0, second.1 ∙ first.1)

  conceptos-NonNeg :
      (total : Float) (cs : List ConceptoCalculo) (us : List (UnidadDistribucion Float))
      → NonNegImportes cs
      → NonNeg us
      → total_of f us +ℤ sum_importes cs ≤ℤ max_int64
      → has_positive f us ≡ true
      → let us' = distribuir_conceptos f total cs us in
        NonNeg us' × (total_of f us' ≡ total_of f us +ℤ sum_importes cs)
  unfolding distribuir_conceptos
  conceptos-NonNeg total [] us h n m p = (n, rw +ℤ-zero)
  conceptos-NonNeg total (c ∷ cs) us h n m p =
      let rest = sum_importes_nonneg cs h.1 in
      let first = concepto-NonNeg total c us h.0 n (omega (int_laws, m)) p in
      let us' = distribuir_concepto f total c us in
      let second =
        conceptos-NonNeg total cs us' h.1 first.0 (rw first.1 (omega (int_laws, m)))
          (concepto-positive f total c us ∙ p) in
      (second.0, second.1 ∙ rw first.1 (+ℤ_assoc _ _ _))

  NonNeg-new : (us : List (UfCoef Float)) → NonNeg (map (new_unidad f) us)
  NonNeg-new [] = tt
  NonNeg-new (u ∷ us) = (omega arith, NonNeg-new us)

  -- Where no amount is negative and their sum fits int64, no unit is charged a negative amount, and
  -- the exact sum of what the units are charged is the exact sum of the amounts: nothing wraps.
  pub distribuir_exacta :
      (cs : List ConceptoCalculo) (ufs : List (UfCoef Float)) (r : DistribucionResult Float)
      → FloatLaws f
      → AreNumbers f ufs
      → NonNegImportes cs
      → sum_importes cs ≤ℤ max_int64
      → distribuir f cs ufs ≡ ok r
      → NonNeg r.unidades × (total_of f r.unidades ≡ sum_importes cs)
  unfolding result_of
  distribuir_exacta cs ufs r laws n h m e =
      let (good, eq) = distribuir-eq-ok f cs ufs r e in
      let sorted = sort_by (codigo_less f) ufs in
      let total = coef_total f f.zero sorted in
      let numbers = All-sort_by (codigo_less f) (λ u. IsNumber f u.coeficiente) ufs n in
      let zero_sum = total_of-new f sorted in
      let done =
        conceptos-NonNeg total cs (map (new_unidad f) sorted) h (NonNeg-new sorted)
          (rw (zero_sum, zero-+ℤ) m) (sorted_positive f sorted laws numbers good) in
      rw eq (done.0, rw (zero_sum, zero-+ℤ) at done.1)
